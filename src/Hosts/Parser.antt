-- ===== src/Hosts/Parser.antt =====
-- include/parser.hpp: `Parser`, without its `hosts`. An exception is `thrown`, and `exited` is the end
-- of the process in `help`.
pub mod Accepting
use broadcast_service.Base.{
  ℕ, zero, suc, ◌+◌, ◌<◌, ◌≡◌, refl, Bool, true, false, not, Option, none, some, List, [], ◌∷◌,
  arith, if◌then◌else◌, ltb, length, get_elem?, ◌>>=◌,
}
use broadcast_service.Hosts.Text.{Text, equal, is_positive_number, stoul}

pub data Exception : Type 0 where
  not_parsed : Exception
  config_ignored : Exception
  no_such_file : Exception
  bad_line : ℕ → Exception
  unresolved : Exception
  too_few_hosts : Exception
  not_compact : Exception

pub data Outcome (A : Type 0) : Type 0 where
  returned : A → Outcome A
  thrown : Exception → Outcome A
  exited : Outcome A

pub record Parser : Type 0 where
  pub argv : List Text
  pub with_config : Bool
  pub parsed : Bool
  pub id : ℕ
  pub hosts_path : Text
  pub output_path : Text
  pub config_path : Text
  pub mode : Text

-- The members that the constructor leaves indeterminate are empty or 0.
unfoldable pub init : List Text → Bool → Parser
init argv with_config = record {
  argv = argv;
  with_config = with_config;
  parsed = false;
  id = 0;
  hosts_path = [];
  output_path = [];
  config_path = [];
  mode = [];
}

-- `argv[i]` in the range that the tests on `argc` leave.
unfoldable pub text_or_empty : Option Text → Text
text_or_empty none = []
text_or_empty (some s) = s

unfoldable pub argument : ℕ → Parser → Text
argument i p = text_or_empty (get_elem? p.argv i)

unfoldable pub argc : Parser → ℕ
argc p = length p.argv

-- `none` is the result `false`.
unfoldable pub parse_id : Parser → Option Parser
parse_id p =
    if ltb (argc p) 3
    then none
    else if equal (argument 1 p) (b'-' ∷ b'-' ∷ b'i' ∷ b'd' ∷ [])
    then if is_positive_number (argument 2 p)
      then stoul (argument 2 p) >>= (λ id. some (record p { id = id }))
      else none
    else none

unfoldable pub parse_host_path : Parser → Option Parser
parse_host_path p =
    if ltb (argc p) 5
    then none
    else if equal (argument 3 p) (b'-' ∷ b'-' ∷ b'h' ∷ b'o' ∷ b's' ∷ b't' ∷ b's' ∷ [])
    then some (record p { hosts_path = argument 4 p })
    else none

unfoldable pub parse_output_path : Parser → Option Parser
parse_output_path p =
    if ltb (argc p) 7
    then none
    else if equal (argument 5 p) (b'-' ∷ b'-' ∷ b'o' ∷ b'u' ∷ b't' ∷ b'p' ∷ b'u' ∷ b't' ∷ [])
    then some (record p { output_path = argument 6 p })
    else none

unfoldable pub parse_config_path : Parser → Option Parser
parse_config_path p =
    if not p.with_config
    then some p
    else if ltb (argc p) 8
    then none
    else some (record p { config_path = argument 7 p })

unfoldable pub parse_mode : Parser → Option Parser
parse_mode p = if ltb (argc p) 9 then none else some (record p { mode = argument 8 p })

unfoldable pub parse_internal : Parser → Option Parser
parse_internal p = do
  p ← parse_id p
  p ← parse_host_path p
  p ← parse_output_path p
  p ← parse_config_path p
  parse_mode p

-- `help` ends the process.
unfoldable pub finish : Option Parser → Outcome Parser
finish none = exited
finish (some p) = returned (record p { parsed = true })

unfoldable pub parse : Parser → Outcome Parser
parse p = finish (parse_internal p)

unfoldable pub check_parsed : {A : Type 0} → Parser → A → Outcome A
check_parsed p a = if p.parsed then returned a else thrown not_parsed

unfoldable pub get_id : Parser → Outcome ℕ
get_id p = check_parsed p p.id

unfoldable pub get_hosts_path : Parser → Outcome Text
get_hosts_path p = check_parsed p p.hosts_path

unfoldable pub get_output_path : Parser → Outcome Text
get_output_path p = check_parsed p p.output_path

unfoldable pub get_config_path : Parser → Outcome Text
get_config_path p =
    if p.parsed
    then if p.with_config then returned p.config_path else thrown config_ignored
    else thrown not_parsed

unfoldable pub get_mode : Parser → Outcome Text
get_mode p = check_parsed p p.mode
