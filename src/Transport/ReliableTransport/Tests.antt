-- ===== src/Transport/ReliableTransport/Tests.antt =====
-- Two hosts, of which this one is the second.
use broadcast_service.Base.{
  ℕ, ◌≡◌, refl, true, ◌||◌, Option, some, List, [], ◌∷◌, nat_eq, ◌==◌, contains,
}
use broadcast_service.Transport.Bytes.{Bytes}
use broadcast_service.Transport.RetryPolicy
use broadcast_service.Hosts.HostsFile.{Host}
use broadcast_service.Hosts.HostsTable.{make, enter, get_peers, resolve, get_host, address_of}
use broadcast_service.Util.Dict
use broadcast_service.Transport.ReliableTransport.{ReliableTransport, start, send}
use broadcast_service.Transport.ReliableTransport.Routing.{Routed, start-Routed}

abbrev two_hosts : List Host
two_hosts = record { id = 1; ip = 7; port = 1 } ∷ record { id = 2; ip = 7; port = 256 } ∷ []

abbrev transport : ReliableTransport
transport = record {
  hosts = make two_hosts 2;
  channels = [];
  max_send_budget = 10;
  error_policy = RetryPolicy.init 100 1000;
  empty_write_policy = RetryPolicy.init 100 1000;
  next_message = 5;
  next_timer = 0;
  batched = [];
}

start-Routed_example :
    (u : ReliableTransport) × (start transport ≡ some u)
    × ((peer : ℕ) (message : Bytes)
        → ((peer == 2) || contains peer (1 ∷ [])) ≡ true
        → (r : Option ℕ × ReliableTransport) × (send peer message u ≡ some r)
          × Routed peer message u r)
unfolding make enter get_peers resolve get_host address_of Dict.lookup Dict.assign contains
    Dict.erase
start-Routed_example = start-Routed transport (refl, tt) (refl, tt) refl
