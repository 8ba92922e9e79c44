-- ===== src/Grpc/Configure.antt =====
-- internal/netbird/daemonclient/grpc.go, the options of the factory, and internal/envconfig: how they
-- are read from the environment and completed. `os.Getenv` and `time.ParseDuration` are parameters; a
-- duration is its nanoseconds.
use network_manager_vpn_plug.Prelude.{
  zero, Bool, true, false, not, ◌&&◌, [], ◌∷◌, ◌++◌, Option, none, some, if◌then◌else◌, Text, codes,
  is_empty,
}
use network_manager_vpn_plug.Go.Decimal.{ℤ, pos}
use network_manager_vpn_plug.Go.Strings.{contains_text, has_prefix, trim_prefix, trim_space}

pub record Options : Type 0 where
  pub address : Text
  pub dial_timeout : ℤ
  pub rpc_timeout : ℤ
  pub start_daemon : Bool
  pub daemon_service : Text

-- `os.Getenv` and `time.ParseDuration`.
pub record Environment : Type 0 where
  pub getenv : Text → Text
  pub parse_duration : Text → Option ℤ

abbrev pub default_address : Text
default_address = codes "unix:///var/run/netbird.sock"

abbrev pub default_daemon_service : Text
default_daemon_service = codes "netbird"

abbrev pub default_dial_timeout : ℤ
default_dial_timeout = pos 3_000_000_000

abbrev pub default_rpc_timeout : ℤ
default_rpc_timeout = pos 15_000_000_000

-- `strconv.ParseBool`.
unfoldable pub parse_bool : Text → Option Bool
unfolding contains_text
parse_bool value =
    if contains_text
      (codes "1" ∷ codes "t" ∷ codes "T" ∷ codes "true" ∷ codes "TRUE" ∷ codes "True" ∷ []) value
    then some true
    else if contains_text
        (codes "0" ∷ codes "f" ∷ codes "F" ∷ codes "false" ∷ codes "FALSE" ∷ codes "False" ∷ [])
        value
    then some false
    else none

abbrev keep_parsed {ℓ} : {A : Type ℓ} → Option A → A → A
keep_parsed none a = a
keep_parsed (some b) a = b

-- An override: the value of a variable that is not blank, if it can be parsed.
abbrev pub override {ℓ} : {A : Type ℓ} → Text → (Text → Option A) → A → A
override [] parse a = a
override (c ∷ s) parse a = keep_parsed (parse (c ∷ s)) a

module _ (environment : Environment) where
  -- `envconfig.String`.
  unfoldable pub env_string : Text → Text
  env_string key = trim_space (environment.getenv key)

  -- `envconfig.StringDefault`.
  unfoldable pub env_string_default : Text → Text → Text
  unfolding env_string
  env_string_default key fallback = override (env_string key) some fallback

  unfoldable pub default_options_from_env : Options
  unfolding env_string parse_bool
  default_options_from_env = record {
    address = override (env_string (codes "NM_NETBIRD_DAEMON_ADDRESS")) some default_address;
    dial_timeout =
        override (env_string (codes "NM_NETBIRD_DAEMON_DIAL_TIMEOUT")) environment.parse_duration
          default_dial_timeout;
    rpc_timeout =
        override (env_string (codes "NM_NETBIRD_DAEMON_RPC_TIMEOUT")) environment.parse_duration
          default_rpc_timeout;
    start_daemon = override (env_string (codes "NM_NETBIRD_START_DAEMON")) parse_bool false;
    daemon_service =
        override (env_string (codes "NM_NETBIRD_DAEMON_SERVICE")) some default_daemon_service;
  }

-- `if timeout == 0 { timeout = fallback }`.
abbrev pub or_timeout : ℤ → ℤ → ℤ
or_timeout (pos zero) fallback = fallback
or_timeout t fallback = t

unfoldable pub normalize_options : Options → Options
normalize_options o = record o {
  address = if is_empty (trim_space o.address) then default_address else o.address;
  dial_timeout = or_timeout o.dial_timeout default_dial_timeout;
  rpc_timeout = or_timeout o.rpc_timeout default_rpc_timeout;
  daemon_service =
      if is_empty (trim_space o.daemon_service) then default_daemon_service else o.daemon_service;
}

-- `normalizeAddress` on the path behind `unix:`.
unfoldable pub unix_path : Text → Text
unix_path path =
    if has_prefix path (codes "//")
    then codes "unix:" ++ path
    else if has_prefix path (codes "/")
    then codes "unix://" ++ path
    else codes "unix:///" ++ path

-- `normalizeAddress` on a trimmed address.
unfoldable pub normalize_trimmed : Text → Text
unfolding unix_path
normalize_trimmed address =
    if is_empty address
    then default_address
    else if has_prefix address (codes "/")
    then codes "unix://" ++ address
    else if has_prefix address (codes "unix:") && not (has_prefix address (codes "unix://"))
    then unix_path (trim_prefix address (codes "unix:"))
    else address

unfoldable pub normalize_address : Text → Text
unfolding normalize_trimmed
normalize_address address = normalize_trimmed (trim_space address)
