-- ===== src/Hosts/HostsFile.antt =====
-- include/parser.hpp: `Host` and `Parser::hosts`. `files` gives the lines of a file that can be opened,
-- and `resolve` the address that the host's name or address stands for, or none.
use broadcast_service.Base.{
  ℕ, ◌+◌, ◌*◌, ◌/◌, ◌%◌, Bool, true, false, not, ◌||◌, Option, none, some, List, [], ◌∷◌, ◌++◌,
  nat_eq, ◌==◌, if◌then◌else◌, ltb, length,
}
use broadcast_service.Hosts.Text.{Text, trim, extract_fields}
use broadcast_service.Hosts.Parser.{
  Parser, Outcome, returned, thrown, exited, no_such_file, bad_line, unresolved, too_few_hosts,
  not_compact, get_hosts_path,
}

-- `ip` and `port` are in network byte order.
pub record Host : Type 0 where
  pub id : ℕ
  pub ip : ℕ
  pub port : ℕ

-- `htons` and `ntohs` on a little-endian machine
unfoldable pub htons : ℕ → ℕ
htons port = port % 256 * 256 + port / 256

unfoldable pub ntohs : ℕ → ℕ
ntohs port = port % 256 * 256 + port / 256

unfoldable pub port_readable : Host → ℕ
port_readable host = ntohs host.port

unfoldable pub host_at : ℕ → ℕ → Option ℕ → Outcome Host
host_at id port none = thrown unresolved
host_at id port (some ip) = returned (record { id = id; ip = ip; port = htons port })

-- `Host(id, ip_or_hostname, port)`
unfoldable pub make_host : (Text → Option ℕ) → ℕ → Text → ℕ → Outcome Host
make_host resolve id name port = host_at id port (resolve name)

unfoldable pub then_do : {A B : Type 0} → Outcome A → (A → Outcome B) → Outcome B
then_do (returned a) f = f a
then_do (thrown e) f = thrown e
then_do exited f = exited

-- The host of a line that is not blank.
unfoldable pub host_of : (Text → Option ℕ) → ℕ → Option (ℕ × (Text × ℕ)) → Outcome Host
host_of resolve line_num none = thrown (bad_line line_num)
host_of resolve line_num (some (id, (name, port))) = make_host resolve id name port

unfoldable pub is_blank : Text → Bool
is_blank [] = true
is_blank (c ∷ s) = false

-- The loop over the lines, from the number of the line before.
unfoldable pub read_lines : (Text → Option ℕ) → ℕ → List Text → List Host → Outcome (List Host)
read_lines resolve line_num [] hosts = returned hosts
read_lines resolve line_num (line ∷ lines) hosts = elim (is_blank (trim line)) [
  | true ↦ read_lines resolve (line_num + 1) lines hosts
  | false ↦
      then_do (host_of resolve (line_num + 1) (extract_fields line))
        (λ host. read_lines resolve (line_num + 1) lines (hosts ++ host ∷ []))
]

-- `std::minmax_element` by the ids.
unfoldable pub min_id : ℕ → List Host → ℕ
min_id m [] = m
min_id m (host ∷ hosts) = min_id (if ltb host.id m then host.id else m) hosts

unfoldable pub max_id : ℕ → List Host → ℕ
max_id m [] = m
max_id m (host ∷ hosts) = max_id (if ltb host.id m then m else host.id) hosts

-- `std::sort` by the ids; it may order hosts with one id otherwise.
unfoldable pub insert_by_id : Host → List Host → List Host
insert_by_id x [] = x ∷ []
insert_by_id x (host ∷ hosts) =
    let rest = insert_by_id x hosts in if ltb host.id x.id then host ∷ rest else x ∷ host ∷ hosts

unfoldable pub sort_by_id : List Host → List Host
sort_by_id [] = []
sort_by_id (host ∷ hosts) = insert_by_id host (sort_by_id hosts)

-- The checks on the hosts of a file.
unfoldable pub checked : List Host → Outcome (List Host)
checked [] = thrown too_few_hosts
checked (host ∷ hosts) =
    let n : ℕ = length (host ∷ hosts) in
    if ltb n 2
    then thrown too_few_hosts
    else if not (min_id host.id hosts == 1) || not (max_id host.id hosts == n)
    then thrown not_compact
    else returned (sort_by_id (host ∷ hosts))

unfoldable pub hosts_of_lines : (Text → Option ℕ) → Option (List Text) → Outcome (List Host)
hosts_of_lines resolve none = thrown no_such_file
hosts_of_lines resolve (some lines) = then_do (read_lines resolve 0 lines []) checked

unfoldable pub hosts :
    (Text → Option (List Text)) → (Text → Option ℕ) → Parser → Outcome (List Host)
hosts files resolve p = then_do (get_hosts_path p) (λ path. hosts_of_lines resolve (files path))
