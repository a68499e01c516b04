-- ===== src/Hosts/Tests.antt =====
-- A command line and files of hosts.
use broadcast_service.Base.{
  ℕ, ◌≡◌, ◌≤◌, refl, true, not, ◌&&◌, Option, some, List, [], ◌∷◌, arith, nat_eq, ◌==◌, contains,
  leb, range,
}
use broadcast_service.Hosts.Text.{
  Text, equal, is_digit, is_space, all_digits, is_positive_number, ltrim, rtrim, before, trim,
  read_digits, stoul, read_unsigned, read_signed, extract_number, word, extract_word, nonempty,
  extract_fields,
}
use broadcast_service.Hosts.Parser.{
  Parser, returned, thrown, not_parsed, init, text_or_empty, argument, argc, parse, check_parsed,
  get_id, get_hosts_path, get_output_path, get_config_path, get_mode,
}
use broadcast_service.Hosts.Parser.Accepting.{
  accepts, filled, id_of, parse-accepts, accessors_unparsed,
}
use broadcast_service.Hosts.HostsFile.{
  Host, htons, host_at, make_host, host_of, is_blank, then_do, read_lines, min_id, max_id,
  insert_by_id, sort_by_id, checked, hosts_of_lines, hosts,
}
use broadcast_service.Hosts.Sorting.{ids}
use broadcast_service.Hosts.Compact.{hosts-range}
use broadcast_service.Hosts.HostsTable.{make, get_peers, get_network_size, resolve, address_of}
use broadcast_service.Hosts.HostsTable.Network.{host_with, make_lem}

-- `run --id 12 --hosts h --output o c m`
abbrev command_line : Parser
command_line =
    init
      ((b'r' ∷ b'u' ∷ b'n' ∷ [])
        ∷ (b'-' ∷ b'-' ∷ b'i' ∷ b'd' ∷ [])
        ∷ (b'1' ∷ b'2' ∷ [])
        ∷ (b'-' ∷ b'-' ∷ b'h' ∷ b'o' ∷ b's' ∷ b't' ∷ b's' ∷ [])
        ∷ (b'h' ∷ [])
        ∷ (b'-' ∷ b'-' ∷ b'o' ∷ b'u' ∷ b't' ∷ b'p' ∷ b'u' ∷ b't' ∷ [])
        ∷ (b'o' ∷ [])
        ∷ (b'c' ∷ [])
        ∷ (b'm' ∷ [])
        ∷ [])
      true

parse-accepts_example : parse command_line ≡ returned (filled command_line)
unfolding accepts init argc argument text_or_empty equal is_positive_number all_digits is_digit
    stoul read_digits
parse-accepts_example = parse-accepts command_line

filled_id : id_of (stoul (argument 2 command_line)) ≡ 12
unfolding id_of init argument text_or_empty stoul read_digits is_digit
filled_id = refl

accessors_unparsed_example :
    (get_id command_line ≡ thrown not_parsed)
    × (get_hosts_path command_line ≡ thrown not_parsed)
    × (get_output_path command_line ≡ thrown not_parsed)
    × (get_config_path command_line ≡ thrown not_parsed)
    × (get_mode command_line ≡ thrown not_parsed)
unfolding init
accessors_unparsed_example = accessors_unparsed command_line refl

abbrev parsed_line : Parser
parsed_line = record command_line { parsed = true }

-- ` 2 b 1`, a blank line, and `1 a 256`
abbrev lines : List Text
lines =
    (b' ' ∷ b'2' ∷ b' ' ∷ b'b' ∷ b' ' ∷ b'1' ∷ [])
    ∷ (b' ' ∷ [])
    ∷ (b'1' ∷ b' ' ∷ b'a' ∷ b' ' ∷ b'2' ∷ b'5' ∷ b'6' ∷ [])
    ∷ []

abbrev file : Text → Option (List Text)
file path = some lines

abbrev address : Text → Option ℕ
address name = some 7

abbrev two_hosts : List Host
two_hosts = record { id = 1; ip = 7; port = 1 } ∷ record { id = 2; ip = 7; port = 256 } ∷ []

file-hosts : hosts file address parsed_line ≡ returned two_hosts
unfolding hosts hosts_of_lines get_hosts_path check_parsed init then_do read_lines host_of make_host
    host_at htons is_blank trim ltrim rtrim before extract_fields extract_number extract_word word
    nonempty read_signed read_unsigned read_digits is_digit is_space checked min_id max_id
    sort_by_id insert_by_id
file-hosts = refl

hosts-range_example : ids two_hosts ≡ range 1 2
unfolding contains
hosts-range_example = hosts-range file address parsed_line two_hosts file-hosts (refl, (refl, tt))

-- Two hosts with the id 1 and one with the id 3 pass the checks.
abbrev repeated : List Host
repeated =
    record { id = 1; ip = 7; port = 1 }
    ∷ record { id = 3; ip = 7; port = 1 }
    ∷ record { id = 1; ip = 7; port = 1 }
    ∷ []

checked-repeated : checked repeated ≡ returned (sort_by_id repeated)
unfolding checked min_id max_id
checked-repeated = refl

make_lem_example :
    (get_network_size true (make two_hosts 2) ≡ 2)
    × ((k : ℕ) → contains k (get_peers (make two_hosts 2)) ≡ (leb 1 k && leb k 2 && not (k == 2)))
    × ((k : ℕ) → 1 ≤ k → k ≤ 2 → resolve k (make two_hosts 2) ≡ address_of (host_with k two_hosts))
make_lem_example = make_lem two_hosts 2 refl (omega arith) (omega arith) (omega arith)
