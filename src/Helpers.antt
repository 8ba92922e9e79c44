-- ===== src/Helpers.antt =====
-- internal/nmplugin/helpers.go: options of the service, and the texts of its log.
pub mod Summary
use network_manager_vpn_plug.Prelude.{
  ℕ, suc, Bool, ◌||◌, List, [], ◌∷◌, ◌++◌, Option, none, some, if◌then◌else◌, Text, codes,
}
use network_manager_vpn_plug.Go.Decimal.{ℤ, pos}
use network_manager_vpn_plug.Go.Maps.{keys, sort_strings}
use network_manager_vpn_plug.Go.Strings.{has_prefix, join}
use network_manager_vpn_plug.Grpc.Dial.{is_positive}
use network_manager_vpn_plug.Settings.Values.{ConnectionSettings, VariantMap}

unfoldable pub positive_duration : ℤ → ℤ → ℤ
positive_duration value fallback = if is_positive value then value else fallback

unfoldable pub next_consecutive_status_failures : ℕ → Bool → ℕ
next_consecutive_status_failures current failed = if failed then suc current else 0

-- Whether `logf` prints a line with this format.
unfoldable pub is_logged : Bool → Text → Bool
unfolding has_prefix
is_logged debug format =
    debug || has_prefix format (codes "Connect") || has_prefix format (codes "Disconnect")

-- `ServiceOptions` without its test hook, over the type of factories; a duration is its nanoseconds.
pub record ServiceOptions {ℓ} (Factory : Type ℓ) : Type ℓ where
  pub client_factory : Option Factory
  pub activation_timeout : ℤ
  pub sso_wait_timeout : ℤ
  pub operation_timeout : ℤ
  pub ready_poll_interval : ℤ
  pub status_poll_interval : ℤ
  pub status_call_timeout : ℤ

abbrev or_factory {ℓ} : {Factory : Type ℓ} → Option Factory → Factory → Option Factory
or_factory none fallback = some fallback
or_factory (some f) fallback = some f

-- The fallback is the factory of the options that the environment gives.
unfoldable pub normalize_service_options {ℓ} :
    {Factory : Type ℓ} → Factory → ServiceOptions Factory → ServiceOptions Factory
unfolding positive_duration
normalize_service_options from_env o = record {
  client_factory = or_factory o.client_factory from_env;
  activation_timeout = positive_duration o.activation_timeout (pos 90_000_000_000);
  sso_wait_timeout = positive_duration o.sso_wait_timeout (pos 600_000_000_000);
  operation_timeout = positive_duration o.operation_timeout (pos 20_000_000_000);
  ready_poll_interval = positive_duration o.ready_poll_interval (pos 500_000_000);
  status_poll_interval = positive_duration o.status_poll_interval (pos 5_000_000_000);
  status_call_timeout = positive_duration o.status_call_timeout (pos 5_000_000_000);
}

-- `fmt.Sprintf("%s[%s]", section, …)` for each section.
abbrev pub summarize_section : Text × VariantMap → Text
summarize_section (section, values) =
    section ++ (b'[' ∷ join (sort_strings (keys values)) (codes ",")) ++ codes "]"

unfoldable pub section_summaries : ConnectionSettings → List Text
section_summaries [] = []
section_summaries (s ∷ rest) = summarize_section s ∷ section_summaries rest

unfoldable pub summarize_settings : ConnectionSettings → Text
unfolding section_summaries sort_strings join
summarize_settings [] = codes "{}"
summarize_settings (s ∷ rest) = join (sort_strings (section_summaries (s ∷ rest))) (codes "; ")

unfoldable pub summarize_variant_map : VariantMap → Text
unfolding sort_strings join
summarize_variant_map [] = codes "{}"
summarize_variant_map (v ∷ rest) =
    codes "{" ++ join (sort_strings (keys (v ∷ rest))) (codes ",") ++ codes "}"
