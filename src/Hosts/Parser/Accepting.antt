-- ===== src/Hosts/Parser/Accepting.antt =====
-- Which command lines are accepted, and what the accessors give.
use broadcast_service.Base.{
  ℕ, ◌≡◌, Bool, true, false, ◌&&◌, Option, none, some, [], ◌∷◌, arith, if◌then◌else◌, leb, is_some,
}
use broadcast_service.Hosts.Text.{equal, is_positive_number, stoul}
use broadcast_service.Hosts.Parser.{
  Parser, returned, thrown, exited, not_parsed, argument, argc, parse_id, parse_host_path,
  parse_output_path, parse_config_path, parse_mode, parse_internal, finish, parse, check_parsed,
  get_id, get_hosts_path, get_output_path, get_config_path, get_mode,
}

-- At least eight arguments, the three flags in their places, and an id of digits below 2 ^ 64.
unfoldable pub accepts : Parser → Bool
accepts p =
    leb 9 (argc p)
    && equal (argument 1 p) (b'-' ∷ b'-' ∷ b'i' ∷ b'd' ∷ [])
    && is_positive_number (argument 2 p)
    && is_some (stoul (argument 2 p))
    && equal (argument 3 p) (b'-' ∷ b'-' ∷ b'h' ∷ b'o' ∷ b's' ∷ b't' ∷ b's' ∷ [])
    && equal (argument 5 p) (b'-' ∷ b'-' ∷ b'o' ∷ b'u' ∷ b't' ∷ b'p' ∷ b'u' ∷ b't' ∷ [])

unfoldable pub id_of : Option ℕ → ℕ
id_of none = 0
id_of (some id) = id

-- The parser with the arguments in its fields.
unfoldable pub filled : Parser → Parser
filled p = record p {
  parsed = true;
  id = id_of (stoul (argument 2 p));
  hosts_path = argument 4 p;
  output_path = argument 6 p;
  config_path = if p.with_config then argument 7 p else p.config_path;
  mode = argument 8 p;
}

pub parse-accepts : (p : Parser) → parse p ≡ (if accepts p then returned (filled p) else exited)
unfolding parse finish parse_internal parse_id parse_host_path parse_output_path parse_config_path
    parse_mode argument argc accepts filled id_of
parse-accepts p = ground arith

-- Before `parse` every accessor throws "Invoke parse() first".
pub accessors_unparsed :
    (p : Parser)
    → p.parsed ≡ false
    → (get_id p ≡ thrown not_parsed)
      × (get_hosts_path p ≡ thrown not_parsed)
      × (get_output_path p ≡ thrown not_parsed)
      × (get_config_path p ≡ thrown not_parsed)
      × (get_mode p ≡ thrown not_parsed)
unfolding get_id get_hosts_path get_output_path get_config_path get_mode check_parsed
accessors_unparsed p h = ground arith
