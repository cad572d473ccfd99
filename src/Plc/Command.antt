-- ===== src/Plc/Command.antt =====
-- internal/plugins/plc/command.go: the allow-list of commands and the payload that is built.
-- `json.Marshal` is the parameter `marshal`, with `none` for its error.
pub mod Handler
pub mod Allowed
pub mod Permitted
use mqttview.Common.{
  ℕ, zero, suc, ◌+◌, ◌-◌, ◌*◌, ◌/◌, ◌%◌, ◌^◌, Bool, true, false, not, ◌&&◌, ◌||◌, Option, none,
  some, List, [], ◌∷◌, ◌++◌, Bytes, codes, bytes_eq, length, ltb, leb, ◌==◌, if◌then◌else◌, ℤ, pos,
  negsuc,
}
use mqttview.Strings.{trim_space, to_lower}
use mqttview.Topic.{is_empty}
use mqttview.Auth.SignIn.{User, at_least}

pub record CommandRequest : Type 0 where
  pub connection_id : Bytes
  pub target : Bytes
  pub command : Bytes
  pub address : ℤ
  pub params : List Bytes

pub data CommandTier : Type 0 where
  light output : CommandTier

-- The texts that `Param` has in the catalogue.
pub data Param : Type 0 where
  no_param level value : Param

-- The label and the description are for display.
pub record CommandSpec : Type 0 where
  pub target : Bytes
  pub command : Bytes
  pub min_address : ℕ
  pub max_address : ℕ
  pub param : Param
  pub tier : CommandTier

abbrev dali : Bytes → Param → CommandSpec
dali command param = record {
  target = codes "dali";
  command = command;
  min_address = 1;
  max_address = 64;
  param = param;
  tier = light;
}

abbrev refresh : Bytes → CommandSpec
refresh target = record {
  target = target;
  command = codes "refresh";
  min_address = 0;
  max_address = 0;
  param = no_param;
  tier = light;
}

abbrev digital_set : CommandSpec
digital_set = record {
  target = codes "digital";
  command = codes "set";
  min_address = 1;
  max_address = 80;
  param = value;
  tier = output;
}

unfoldable pub command_catalogue : List CommandSpec
command_catalogue =
    dali (codes "on") no_param
    ∷ dali (codes "off") no_param
    ∷ dali (codes "arc") level
    ∷ dali (codes "query_actual_level") no_param
    ∷ refresh (codes "dali")
    ∷ refresh (codes "system")
    ∷ digital_set
    ∷ []

-- The loop of `lookupCommand`.
unfoldable pub find_command : Bytes → Bytes → List CommandSpec → Option CommandSpec
find_command target command [] = none
find_command target command (s ∷ specs) =
    if bytes_eq s.target target && bytes_eq s.command command
    then some s
    else find_command target command specs

unfoldable pub lookup_command : Bytes → Bytes → Option CommandSpec
unfolding find_command command_catalogue
lookup_command target command = find_command target command command_catalogue

pub record CommandPayload : Type 0 where
  pub target : Bytes
  pub command : Bytes
  pub address : ℤ
  pub params : List Bytes

pub data CommandError : Type 0 where
  not_a_command bad_address takes_no_address takes_no_params needs_one_param : CommandError
  bad_level bad_value unmarshalable : CommandError

abbrev pub dali_max_level : ℕ
dali_max_level = 254

-- The digits of `strconv.Atoi`, or `none` at a byte that is no digit.
unfoldable pub parse_digits : Bytes → ℕ → Option ℕ
parse_digits [] n = some n
parse_digits (b ∷ s) n =
    let rest = parse_digits s (n * 10 + (b - 48)) in if leb 48 b && leb b 57 then rest else none

abbrev signed : Bool → ℕ → ℤ
signed false n = pos n
signed true zero = pos zero
signed true (suc n) = negsuc n

-- A number that an int64 cannot hold is an error.
unfoldable pub parse_number : Bool → Bytes → Option ℤ
unfolding parse_digits
parse_number negative [] = none
parse_number negative (b ∷ s) = elim (parse_digits (b ∷ s) 0) [
  | none ↦ none
  | some n ↦
      if ltb (if negative then 2 ^ 63 else 2 ^ 63 - 1) n then none else some (signed negative n)
]

unfoldable pub atoi : Bytes → Option ℤ
unfolding parse_number
atoi [] = none
atoi (b ∷ s) =
    if b == 45
    then parse_number true s
    else if b == 43
    then parse_number false s
    else parse_number false (b ∷ s)

-- `strconv.Itoa` of a number below 1000.
unfoldable pub itoa : ℕ → Bytes
itoa n =
    (if leb 100 n then (48 + n / 100) ∷ [] else [])
    ++ (if leb 10 n then (48 + n / 10 % 10) ∷ [] else [])
    ++ (48 + n % 10) ∷ []

-- The guards on the address.
unfoldable pub address_error : CommandSpec → ℤ → Option CommandError
address_error spec (pos n) =
    if ltb 0 spec.max_address
    then (if ltb n spec.min_address || ltb spec.max_address n then some bad_address else none)
    else if not (n == 0)
    then some takes_no_address
    else none
address_error spec (negsuc n) =
    if ltb 0 spec.max_address then some bad_address else some takes_no_address

-- A payload's parameters, or the error.
pub data Params : Type 0 where
  params : List Bytes → Params
  rejected : CommandError → Params

unfoldable pub check_level : Option ℤ → Params
unfolding itoa
check_level none = rejected bad_level
check_level (some (negsuc _)) = rejected bad_level
check_level (some (pos n)) =
    if ltb dali_max_level n then rejected bad_level else params (itoa n ∷ [])

unfoldable pub check_value : Bytes → Params
check_value s =
    if bytes_eq s (codes "true") || bytes_eq s (codes "1") || bytes_eq s (codes "on")
    then params (codes "true" ∷ [])
    else if bytes_eq s (codes "false") || bytes_eq s (codes "0") || bytes_eq s (codes "off")
    then params (codes "false" ∷ [])
    else rejected bad_value

-- The `switch`, with `singleParam`.
unfoldable pub check_params : Param → List Bytes → Params
unfolding check_level atoi check_value to_lower trim_space
check_params no_param [] = params []
check_params no_param (_ ∷ _) = rejected takes_no_params
check_params level (v ∷ []) = check_level (atoi v)
check_params value (v ∷ []) = check_value (to_lower (trim_space v))
check_params _ _ = rejected needs_one_param

pub data Built : Type 0 where
  built : CommandSpec → Bytes → Built
  refused : CommandError → Built

module _ (marshal : CommandPayload → Option Bytes) where
  unfoldable pub render : CommandSpec → ℤ → Params → Built
  render spec address (rejected e) = refused e
  render spec address (params ps) =
      elim (marshal
        (record { target = spec.target; command = spec.command; address = address; params = ps })) [
          | none ↦ refused unmarshalable
          | some body ↦ built spec body
        ]

  unfoldable pub build_for : CommandRequest → Option CommandSpec → Built
  unfolding address_error check_params render
  build_for req none = refused not_a_command
  build_for req (some spec) = elim (address_error spec req.address) [
    | some e ↦ refused e
    | none ↦ render spec req.address (check_params spec.param req.params)
  ]

  unfoldable pub build_command : CommandRequest → Built
  unfolding lookup_command build_for
  build_command req =
      build_for req (lookup_command (trim_space req.target) (trim_space req.command))
