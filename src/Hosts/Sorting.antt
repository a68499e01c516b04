-- ===== src/Hosts/Sorting.antt =====
-- The order in which `hosts` returns the hosts, and the least and the greatest of their ids.
use broadcast_service.Base.{
  ℕ, suc, ◌+◌, ◌<◌, ◌≤◌, ◌≡◌, refl, ap, subst, false, ◌||◌, List, [], ◌∷◌, map, arith, nat_eq, ◌==◌,
  contains, if◌then◌else◌, ltb, length, range, Distinct, All,
}
use broadcast_service.Hosts.Text.{}
use broadcast_service.Hosts.Parser.{}
use broadcast_service.Hosts.HostsFile.{Host, min_id, max_id, insert_by_id, sort_by_id, hosts}

abbrev pub ids : List Host → List ℕ
ids hosts = map (λ host. host.id) hosts

-- Each number is above the one before it, and the first is not below `lo`.
abbrev pub Ascending : ℕ → List ℕ → Type 0
Ascending lo [] = Unit {0}
Ascending lo (x ∷ xs) = (lo ≤ x) × Ascending (x + 1) xs

pub Ascending-room :
    (lo hi : ℕ) (xs : List ℕ)
    → lo ≤ hi
    → Ascending lo xs
    → All (λ x. x < hi) xs
    → lo + length xs ≤ hi
Ascending-room lo hi [] le a b = omega arith
Ascending-room lo hi (x ∷ xs) le a b =
    omega (arith, a.0, Ascending-room (x + 1) hi xs (omega (arith, b.0)) a.1 b.1)

-- Ascending numbers in a range of their count are the range.
pub Ascending-range :
    (lo : ℕ) (xs : List ℕ)
    → Ascending lo xs
    → All (λ x. x < lo + length xs) xs
    → xs ≡ range lo (length xs)
Ascending-range lo [] a b = refl
Ascending-range lo (x ∷ xs) a b =
    let room = Ascending-room (x + 1) (lo + length (x ∷ xs)) xs (omega (arith, b.0)) a.1 b.1 in
    let first : x ≡ lo = omega (arith, a.0, room) in
    let same : lo + length (x ∷ xs) ≡ x + 1 + length xs = omega (arith, first) in
    let rest = Ascending-range (x + 1) xs a.1 (subst (λ n. All (λ x. x < n) xs) same b.1) in
    ground (arith, first, rest, ap (λ (n : ℕ). range (n + 1) (length xs)) first)

pub min_id-le :
    (m : ℕ) (hosts : List Host) → (min_id m hosts ≤ m) × All (λ k. min_id m hosts ≤ k) (ids hosts)
unfolding min_id
min_id-le m [] = (omega arith, tt)
min_id-le m (host ∷ hosts) =
    let m' : ℕ = if ltb host.id m then host.id else m in
    let rest = min_id-le m' hosts in (ground (arith, rest.0), (ground (arith, rest.0), rest.1))

pub le-max_id :
    (m : ℕ) (hosts : List Host) → (m ≤ max_id m hosts) × All (λ k. k ≤ max_id m hosts) (ids hosts)
unfolding max_id
le-max_id m [] = (omega arith, tt)
le-max_id m (host ∷ hosts) =
    let m' : ℕ = if ltb host.id m then m else host.id in
    let rest = le-max_id m' hosts in (ground (arith, rest.0), (ground (arith, rest.0), rest.1))

length-insert_by_id :
    (x : Host) (hosts : List Host) → length (ids (insert_by_id x hosts)) ≡ suc (length (ids hosts))
unfolding insert_by_id
length-insert_by_id x [] = refl
length-insert_by_id x (host ∷ hosts) = ground (arith, length-insert_by_id x hosts)

contains-insert_by_id :
    (k : ℕ) (x : Host) (hosts : List Host)
    → contains k (ids (insert_by_id x hosts)) ≡ (x.id == k || contains k (ids hosts))
unfolding insert_by_id contains
contains-insert_by_id k x [] = refl
contains-insert_by_id k x (host ∷ hosts) = ground (arith, contains-insert_by_id k x hosts)

Ascending-insert_by_id :
    (lo : ℕ) (x : Host) (hosts : List Host)
    → lo ≤ x.id
    → contains x.id (ids hosts) ≡ false
    → Ascending lo (ids hosts)
    → Ascending lo (ids (insert_by_id x hosts))
unfolding insert_by_id contains
Ascending-insert_by_id lo x [] le fresh a = (le, tt)
Ascending-insert_by_id lo x (host ∷ hosts) le fresh a =
    ground (arith, a, Ascending-insert_by_id (host.id + 1) x hosts)

pub contains-sort_by_id :
    (k : ℕ) (hosts : List Host) → contains k (ids (sort_by_id hosts)) ≡ contains k (ids hosts)
unfolding sort_by_id contains
contains-sort_by_id k [] = refl
contains-sort_by_id k (host ∷ hosts) =
    ground (arith, contains-insert_by_id k host (sort_by_id hosts), contains-sort_by_id k hosts)

pub length-sort_by_id : (hosts : List Host) → length (ids (sort_by_id hosts)) ≡ length hosts
unfolding sort_by_id
length-sort_by_id [] = refl
length-sort_by_id (host ∷ hosts) =
    ground (arith, length-insert_by_id host (sort_by_id hosts), length-sort_by_id hosts)

pub Ascending-sort_by_id :
    (lo : ℕ) (hosts : List Host)
    → Distinct (ids hosts)
    → All (λ k. lo ≤ k) (ids hosts)
    → Ascending lo (ids (sort_by_id hosts))
unfolding sort_by_id
Ascending-sort_by_id lo [] d b = tt
Ascending-sort_by_id lo (host ∷ hosts) d b =
    Ascending-insert_by_id lo host (sort_by_id hosts) b.0
      (ground (arith, d.0, contains-sort_by_id host.id hosts))
      (Ascending-sort_by_id lo hosts d.1 b.1)

Distinct-insert_by_id :
    (x : Host) (hosts : List Host)
    → Distinct (ids (insert_by_id x hosts))
    → (contains x.id (ids hosts) ≡ false) × Distinct (ids hosts)
unfolding insert_by_id contains
Distinct-insert_by_id x [] d = (refl, tt)
Distinct-insert_by_id x (host ∷ hosts) d =
    ground (arith, d, Distinct-insert_by_id x hosts, contains-insert_by_id host.id x hosts)

pub Distinct-sort_by_id :
    (hosts : List Host) → Distinct (ids (sort_by_id hosts)) → Distinct (ids hosts)
unfolding sort_by_id
Distinct-sort_by_id [] d = tt
Distinct-sort_by_id (host ∷ hosts) d =
    let apart = Distinct-insert_by_id host (sort_by_id hosts) d in
    (ground (arith, apart.0, contains-sort_by_id host.id hosts), Distinct-sort_by_id hosts apart.1)
