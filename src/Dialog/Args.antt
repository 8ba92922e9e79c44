-- ===== src/Dialog/Args.antt =====
-- internal/nmauthdialog/dialog.go: `ParseArgs`, with the parser of Go's flag package for the flags that
-- it declares. `time.ParseDuration` is a parameter; a duration is its nanoseconds.
use network_manager_vpn_plug.Prelude.{
  ℕ, Bool, true, false, not, List, [], ◌∷◌, ◌++◌, Option, none, some, ◌==◌, ◌||◌, if◌then◌else◌,
  Text, codes, text_eq, is_empty, Result, ok, err,
}
use network_manager_vpn_plug.Go.Decimal.{ℤ, pos}
use network_manager_vpn_plug.Go.Strings.{contains_text, trim_space}
use network_manager_vpn_plug.Grpc.Configure.{parse_bool}

-- `Options`.
pub record Arguments : Type 0 where
  pub uuid : Text
  pub name : Text
  pub service : Text
  pub allow_interaction : Bool
  pub external_ui_mode : Bool
  pub reprompt : Bool
  pub hints : List Text
  pub test_browser_url : Text
  pub test_browser_timeout : ℤ
  pub test_browser_force : Bool

pub data Flag : Type 0 where
  uuid_flag name_flag service_flag hint_flag test_browser_flag test_browser_timeout_flag : Flag
  allow_interaction_flag external_ui_mode_flag reprompt_flag test_browser_force_flag : Flag

-- The errors of the flag package, and those of `ParseArgs`.
pub data ArgsError : Type 0 where
  bad_syntax undefined_flag : Text → ArgsError
  help : ArgsError
  needs_argument : Flag → ArgsError
  invalid_value : Flag → Text → ArgsError
  unexpected_arguments : List Text → ArgsError
  missing_uuid missing_name missing_service other_service : ArgsError

unfoldable pub flag_of : Text → Option Flag
unfolding contains_text text_eq
flag_of name =
    if contains_text (codes "uuid" ∷ codes "u" ∷ []) name
    then some uuid_flag
    else if contains_text (codes "name" ∷ codes "n" ∷ []) name
    then some name_flag
    else if contains_text (codes "service" ∷ codes "s" ∷ []) name
    then some service_flag
    else if contains_text (codes "allow-interaction" ∷ codes "i" ∷ []) name
    then some allow_interaction_flag
    else if text_eq name (codes "external-ui-mode")
    then some external_ui_mode_flag
    else if contains_text (codes "reprompt" ∷ codes "r" ∷ []) name
    then some reprompt_flag
    else if contains_text (codes "hint" ∷ codes "t" ∷ []) name
    then some hint_flag
    else if text_eq name (codes "test-browser")
    then some test_browser_flag
    else if text_eq name (codes "test-browser-timeout")
    then some test_browser_timeout_flag
    else if text_eq name (codes "test-browser-force")
    then some test_browser_force_flag
    else none

abbrev is_bool_flag : Flag → Bool
is_bool_flag allow_interaction_flag = true
is_bool_flag external_ui_mode_flag = true
is_bool_flag reprompt_flag = true
is_bool_flag test_browser_force_flag = true
is_bool_flag _ = false

abbrev set_bool : Option Bool → (Bool → Arguments) → Option Arguments
set_bool none f = none
set_bool (some b) f = some (f b)

abbrev set_duration : Option ℤ → Arguments → Option Arguments
set_duration none o = none
set_duration (some d) o = some (record o { test_browser_timeout = d })

-- One argument as `parseOne` takes it apart: the flag's name, and the value behind `=`.
pub data Argument : Type 0 where
  plain terminator malformed : Argument
  named : Text → Option Text → Argument

-- A name and what is behind the first `=`.
unfoldable pub split_value : Text → Text × Option Text
split_value [] = ([], none)
split_value (c ∷ s) =
    let (name, value) = split_value s in if c == b'=' then ([], some s) else (c ∷ name, value)

unfoldable pub flag_argument : Text → Argument
unfolding split_value
flag_argument [] = malformed
flag_argument (c ∷ s) =
    let (name, value) = split_value s in
    if c == b'-' || c == b'=' then malformed else named (c ∷ name) value

abbrev second_dash : ℕ → Text → Argument
second_dash c [] = if c == b'-' then terminator else flag_argument (c ∷ [])
second_dash c (d ∷ s) = if c == b'-' then flag_argument (d ∷ s) else flag_argument (c ∷ d ∷ s)

unfoldable pub parse_argument : Text → Argument
unfolding flag_argument
parse_argument (c ∷ d ∷ s) = if c == b'-' then second_dash d s else plain
parse_argument _ = plain

abbrev pub Scanned : Type 0
Scanned = Result ArgsError (Arguments × List Text)

abbrev pub service_name : Text
service_name = codes "org.freedesktop.NetworkManager.netbird"

-- The tests of `ParseArgs` behind `flags.Parse`.
unfoldable pub checked_args : Scanned → Result ArgsError Arguments
unfolding trim_space text_eq
checked_args (err e) = err e
checked_args (ok (o, a ∷ args)) = err (unexpected_arguments (a ∷ args))
checked_args (ok (o, [])) =
    if not (is_empty (trim_space o.test_browser_url))
    then ok o
    else if is_empty (trim_space o.uuid)
    then err missing_uuid
    else if is_empty (trim_space o.name)
    then err missing_name
    else if is_empty (trim_space o.service)
    then err missing_service
    else if not (text_eq o.service service_name)
    then err other_service
    else ok o

abbrev pub default_arguments : Arguments
default_arguments = record {
  uuid = [];
  name = [];
  service = [];
  allow_interaction = false;
  external_ui_mode = false;
  reprompt = false;
  hints = [];
  test_browser_url = [];
  test_browser_timeout = pos 5_000_000_000;
  test_browser_force = false;
}

module _ (parse_duration : Text → Option ℤ) where
  -- `Value.Set` of a flag.
  unfoldable pub set_flag : Flag → Text → Arguments → Option Arguments
  unfolding parse_bool
  set_flag uuid_flag v o = some (record o { uuid = v })
  set_flag name_flag v o = some (record o { name = v })
  set_flag service_flag v o = some (record o { service = v })
  set_flag hint_flag v o = some (record o { hints = o.hints ++ (v ∷ []) })
  set_flag test_browser_flag v o = some (record o { test_browser_url = v })
  set_flag test_browser_timeout_flag v o = set_duration (parse_duration v) o
  set_flag allow_interaction_flag v o =
      set_bool (parse_bool v) (λ b. record o { allow_interaction = b })
  set_flag external_ui_mode_flag v o =
      set_bool (parse_bool v) (λ b. record o { external_ui_mode = b })
  set_flag reprompt_flag v o = set_bool (parse_bool v) (λ b. record o { reprompt = b })
  set_flag test_browser_force_flag v o =
      set_bool (parse_bool v) (λ b. record o { test_browser_force = b })

  -- `FlagSet.Parse`: `pending` is a flag whose value is the next argument. The arguments that are left
  -- are those behind the flags.
  unfoldable pub scan_args : Option Flag → List Text → Arguments → Scanned
  unfolding parse_argument flag_of set_flag
  scan_args none [] o = ok (o, [])
  scan_args (some f) [] o = err (needs_argument f)
  scan_args (some f) (v ∷ args) o = elim (set_flag f v o) [
    | none ↦ err (invalid_value f v)
    | some p ↦ scan_args none args p
  ]
  scan_args none (a ∷ args) o = elim (parse_argument a) [
    | plain ↦ ok (o, a ∷ args)
    | terminator ↦ ok (o, args)
    | malformed ↦ err (bad_syntax a)
    | named name value ↦ elim (flag_of name) [
      | none ↦
          err (
            if contains_text (codes "help" ∷ codes "h" ∷ []) name
            then help
            else undefined_flag name)
      | some f ↦ elim value [
        | some v ↦ elim (set_flag f v o) [
          | none ↦ err (invalid_value f v)
          | some p ↦ scan_args none args p
        ]
        | none ↦ elim (is_bool_flag f) [
          | true ↦ elim (set_flag f (codes "true") o) [
            | none ↦ err (invalid_value f (codes "true"))
            | some p ↦ scan_args none args p
          ]
          | false ↦ scan_args (some f) args o
        ]
      ]
    ]
  ]

  unfoldable pub parse_args : List Text → Result ArgsError Arguments
  unfolding scan_args checked_args
  parse_args args = checked_args (scan_args none args default_arguments)
