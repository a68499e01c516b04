-- ===== src/Hosts/HostsTable/Network.antt =====
-- The table of hosts whose ids are 1 to their number.
use broadcast_service.Base.{
  ℕ, ◌+◌, ◌%◌, ◌<◌, ◌≤◌, ◌≡◌, true, not, ◌&&◌, ◌||◌, Option, none, some, List, [], ◌∷◌, ◌++◌, arith,
  nat_eq, ◌==◌, contains, contains-append, if◌then◌else◌, ltb, leb, length, range, length-append,
}
use broadcast_service.Util.Dict
use broadcast_service.Hosts.HostsFile.{Host}
use broadcast_service.Hosts.Sorting.{ids}
use broadcast_service.Hosts.HostsTable.{
  enter, make, get_host, get_peers, get_network_size, address_of, resolve,
}

-- The peers that the loop adds to those it has.
peers-enter :
    (local lo : ℕ) (list : List Host) (hosts : List (ℕ × Host)) (peers : List ℕ) (k : ℕ)
    → ids list ≡ range lo (length list)
    → lo + length list ≤ 256
    → contains k (enter local list hosts peers).1
      ≡ (contains k peers || (leb lo k && ltb k (lo + length list) && not (k == local)))
unfolding enter contains
peers-enter local lo [] hosts peers k e fits = ground arith
peers-enter local lo (host ∷ list) hosts peers k e fits =
    let first : host.id ≡ lo = ground arith in
    let rest : ids list ≡ range (lo + 1) (length list) = ground arith in
    ground (
      arith,
      first,
      contains-append k peers (host.id % 256 ∷ []),
      peers-enter local (lo + 1) list (Dict.assign (host.id % 256) host hosts)
          (if host.id == local then peers else peers ++ host.id % 256 ∷ []) k rest (omega arith),
    )

length-enter :
    (local lo : ℕ) (list : List Host) (hosts : List (ℕ × Host)) (peers : List ℕ)
    → ids list ≡ range lo (length list)
    → length (enter local list hosts peers).1
        + (if leb lo local && ltb local (lo + length list) then 1 else 0)
      ≡ length peers + length list
unfolding enter
length-enter local lo [] hosts peers e = ground arith
length-enter local lo (host ∷ list) hosts peers e =
    let first : host.id ≡ lo = ground arith in
    let rest : ids list ≡ range (lo + 1) (length list) = ground arith in
    ground (
      arith,
      first,
      length-append peers (host.id % 256 ∷ []),
      length-enter local (lo + 1) list (Dict.assign (host.id % 256) host hosts)
          (if host.id == local then peers else peers ++ host.id % 256 ∷ []) rest,
    )

-- The host of an id.
unfoldable pub host_with : ℕ → List Host → Option Host
host_with id [] = none
host_with id (host ∷ list) = if host.id == id then some host else host_with id list

lookup-enter :
    (local lo : ℕ) (list : List Host) (hosts : List (ℕ × Host)) (peers : List ℕ) (k : ℕ)
    → ids list ≡ range lo (length list)
    → lo + length list ≤ 256
    → Dict.lookup k (enter local list hosts peers).0
      ≡ (if leb lo k && ltb k (lo + length list) then host_with k list else Dict.lookup k hosts)
unfolding enter host_with
lookup-enter local lo [] hosts peers k e fits = ground arith
lookup-enter local lo (host ∷ list) hosts peers k e fits =
    let first : host.id ≡ lo = ground arith in
    let rest : ids list ≡ range (lo + 1) (length list) = ground arith in
    ground (
      arith,
      first,
      Dict.lookup-assign (host.id % 256) k host hosts,
      lookup-enter local (lo + 1) list (Dict.assign (host.id % 256) host hosts)
          (if host.id == local then peers else peers ++ host.id % 256 ∷ []) k rest (omega arith),
    )

-- The table made of at most 255 hosts with the ids 1 to their number, one of them the local one: the
-- network has as many members as there are hosts, the peers are the other hosts' ids, and each id
-- of a host resolves to its port and address.
pub make_lem :
    (list : List Host) (local : ℕ)
    → ids list ≡ range 1 (length list)
    → length list < 256
    → 1 ≤ local
    → local ≤ length list
    → (get_network_size true (make list local) ≡ length list)
      × ((k : ℕ)
          → contains k (get_peers (make list local))
            ≡ (leb 1 k && leb k (length list) && not (k == local)))
      × ((k : ℕ)
          → 1 ≤ k
          → k ≤ length list
          → resolve k (make list local) ≡ address_of (host_with k list))
unfolding make get_network_size get_peers resolve get_host contains
make_lem list local e fits low high = (
  ground (arith, length-enter local 1 list [] [] e),
  λ k. ground (arith, peers-enter local 1 list [] [] k e (omega arith)),
  λ k above below. ground (arith, lookup-enter local 1 list [] [] k e (omega arith)),
)
