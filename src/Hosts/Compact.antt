-- ===== src/Hosts/Compact.antt =====
-- The ids of the hosts that `hosts` returns.
use broadcast_service.Base.{
  ℕ, suc, ◌+◌, ◌<◌, ◌≤◌, ◌≡◌, refl, sym, ap, ◌∙◌, subst, true, Option, none, some, List, [], ◌∷◌,
  arith, nat_eq, contains, length, range, Distinct, All,
}
use broadcast_service.Hosts.Text.{Text}
use broadcast_service.Hosts.Parser.{Parser, Outcome, returned, thrown, exited, get_hosts_path}
use broadcast_service.Hosts.HostsFile.{
  Host, min_id, max_id, sort_by_id, checked, then_do, hosts, hosts_of_lines, read_lines,
}
use broadcast_service.Hosts.Sorting.{
  ids, Ascending, Ascending-range, min_id-le, le-max_id, contains-sort_by_id, length-sort_by_id,
  Ascending-sort_by_id, Distinct-sort_by_id,
}

All-of_contains :
    (hi : ℕ) (xs : List ℕ) → ((k : ℕ) → contains k xs ≡ true → k < hi) → All (λ k. k < hi) xs
unfolding contains
All-of_contains hi [] h = tt
All-of_contains hi (x ∷ xs) h =
    (h x (ground arith), All-of_contains hi xs (λ k m. h k (ground arith)))

contains-lt : (hi k : ℕ) (xs : List ℕ) → All (λ k. k ≤ hi) xs → contains k xs ≡ true → k < hi + 1
unfolding contains
contains-lt hi k [] b m = ground arith
contains-lt hi k (x ∷ xs) b m = ground (arith, b.0, contains-lt hi k xs b.1)

-- If the checks on hosts with different ids let them pass, then the ids of the hosts that are
-- returned are 1, 2, 3 and so on to the number of the hosts.
pub checked-range :
    (hosts sorted : List Host)
    → Distinct (ids hosts)
    → checked hosts ≡ returned sorted
    → ids sorted ≡ range 1 (length hosts)
unfolding checked
checked-range [] sorted d e = ground arith
checked-range (host ∷ hosts) sorted d e =
    let all : List Host = host ∷ hosts in
    let low = min_id-le host.id hosts in
    let high = le-max_id host.id hosts in
    let made = Ascending-sort_by_id (min_id host.id hosts) all d (low.0, low.1) in
    let top : max_id host.id hosts ≡ length all = ground arith in
    let bottom : min_id host.id hosts ≡ 1 = ground arith in
    let result : sort_by_id all ≡ sorted = ground arith in
    let size = length-sort_by_id all in
    let bounded : All (λ k. k < 1 + length (ids (sort_by_id all))) (ids (sort_by_id all)) =
      All-of_contains (1 + length (ids (sort_by_id all))) (ids (sort_by_id all)) (λ k m. ground (
        arith,
        size,
        contains-sort_by_id k all,
        contains-lt (max_id host.id hosts) k (ids all) (high.0, high.1),
      )) in
    let ascending : Ascending 1 (ids (sort_by_id all)) =
      subst (λ n. Ascending n (ids (sort_by_id all))) bottom made in
    let e = Ascending-range 1 (ids (sort_by_id all)) ascending bounded in
    sym (ap ids result) ∙ (e ∙ ap (range 1) size)

length-ids : (hosts : List Host) → length (ids hosts) ≡ length hosts
length-ids [] = refl
length-ids (host ∷ hosts) = ap suc (length-ids hosts)

checked_sorts :
    (hosts sorted : List Host) → checked hosts ≡ returned sorted → sort_by_id hosts ≡ sorted
unfolding checked
checked_sorts [] sorted e = ground arith
checked_sorts (host ∷ hosts) sorted e = ground arith

then_do_returned :
    {A B : Type 0} (o : Outcome A) (f : A → Outcome B) (b : B)
    → then_do o f ≡ returned b
    → (a : A) × (o ≡ returned a) × (f a ≡ returned b)
unfolding then_do
then_do_returned (returned a) f b e = (a, refl, e)
then_do_returned (thrown x) f b e = ground arith
then_do_returned exited f b e = ground arith

hosts_of_lines-range :
    (resolve : Text → Option ℕ) (file : Option (List Text)) (sorted : List Host)
    → hosts_of_lines resolve file ≡ returned sorted
    → Distinct (ids sorted)
    → ids sorted ≡ range 1 (length sorted)
unfolding hosts_of_lines
hosts_of_lines-range resolve none sorted e d = ground arith
hosts_of_lines-range resolve (some lines) sorted e d =
    let read = then_do_returned (read_lines resolve 0 lines []) checked sorted e in
    let result = checked_sorts read.0 sorted read.2 in
    let apart = Distinct-sort_by_id read.0 (subst (λ hosts. Distinct (ids hosts)) (sym result) d) in
    let size : length read.0 ≡ length sorted =
      sym (length-sort_by_id read.0)
      ∙ (ap (λ hosts. length (ids hosts)) result ∙ length-ids sorted) in
    checked-range read.0 sorted apart read.2 ∙ ap (range 1) size

-- Whatever the file and the resolution of names, if `hosts` returns and no two of the hosts have one
-- id, then the ids are 1, 2, 3 and so on to the number of the hosts, in this order.
pub hosts-range :
    (files : Text → Option (List Text)) (resolve : Text → Option ℕ) (p : Parser)
    (sorted : List Host)
    → hosts files resolve p ≡ returned sorted
    → Distinct (ids sorted)
    → ids sorted ≡ range 1 (length sorted)
unfolding hosts
hosts-range files resolve p sorted e d =
    let named = then_do_returned (get_hosts_path p) _ sorted e in
    hosts_of_lines-range resolve (files named.0) sorted named.2 d
