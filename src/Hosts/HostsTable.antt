-- ===== src/Hosts/HostsTable.antt =====
-- include/io/transport/hosts.hpp: `HostsTable`. A `PeerID` has 8 bits.
pub mod Network
use broadcast_service.Base.{
  ℕ, zero, suc, ◌+◌, ◌%◌, ◌^◌, Bool, true, false, Option, none, some, List, [], ◌∷◌, ◌++◌, nat_eq,
  ◌==◌, if◌then◌else◌, length,
}
use broadcast_service.Util.Dict
use broadcast_service.Hosts.HostsFile.{Host}

pub record HostsTable : Type 0 where
  pub hosts_list : List Host
  pub hosts : List (ℕ × Host)
  pub local_id : ℕ
  pub peers : List ℕ

-- `sockaddr_in`; the family is `AF_INET`.
pub record AddrInfo : Type 0 where
  pub port : ℕ
  pub address : ℕ

-- The loop of the constructor.
unfoldable pub enter : ℕ → List Host → List (ℕ × Host) → List ℕ → List (ℕ × Host) × List ℕ
enter local [] hosts peers = (hosts, peers)
enter local (host ∷ list) hosts peers =
    let id : ℕ = host.id % 256 in
    enter local list (Dict.assign id host hosts)
      (if host.id == local then peers else peers ++ id ∷ [])

unfoldable pub make : List Host → ℕ → HostsTable
make hosts_list local = record {
  hosts_list = hosts_list;
  hosts = (enter local hosts_list [] []).0;
  local_id = local;
  peers = (enter local hosts_list [] []).1;
}

-- `hosts_[id]` enters an uninitialised host where there is none: that is `none`.
unfoldable pub get_host : ℕ → HostsTable → Option Host
get_host id t = Dict.lookup id t.hosts

unfoldable pub local_host : HostsTable → Option Host
local_host t = get_host t.local_id t

unfoldable pub get_peers : HostsTable → List ℕ
get_peers t = t.peers

unfoldable pub get_network_size : Bool → HostsTable → ℕ
get_network_size with_me t = if with_me then length t.peers + 1 else length t.peers

unfoldable pub address_of : Option Host → Option AddrInfo
address_of none = none
address_of (some host) = some (record { port = host.port; address = host.ip })

unfoldable pub resolve : ℕ → HostsTable → Option AddrInfo
resolve id t = address_of (get_host id t)

unfoldable pub resolve_local_host : HostsTable → Option AddrInfo
resolve_local_host t = resolve t.local_id t
