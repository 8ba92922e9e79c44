-- ===== src/Dialog/Hints.antt =====
-- internal/nmauthdialog/dialog.go: the hints of a request, and lookups in the VPN details. The keys
-- and modes have the normal forms of internal/nmplugin/settings.go: the two packages have the same
-- text of `normalizeSettingKey`, `normalizeAuthMode` and the test for a true value.
use network_manager_vpn_plug.Prelude.{
  Bool, false, not, ◌||◌, List, [], ◌∷◌, Option, none, some, if◌then◌else◌, Text, codes, text_eq,
  is_empty,
}
use network_manager_vpn_plug.Go.Maps.{lookup, insert, or_empty}
use network_manager_vpn_plug.Go.Strings.{trim_space, cut}
use network_manager_vpn_plug.Go.Unicode.{Tables}
use network_manager_vpn_plug.Settings.Normal.{normalize_setting_key, is_truthy}
use network_manager_vpn_plug.Settings.Values.{StringMap}

pub record HintValues : Type 0 where
  pub raw : List Text
  pub values : StringMap

-- `strings.Cut(hint, "=")` as `parseHints` reads it: a hint without a value is true.
abbrev pub key_and_value : Text → Option (Text × Text) → Text × Text
key_and_value hint none = (hint, codes "true")
key_and_value hint (some (key, value)) = (key, value)

abbrev pub hint_key : Text → Option (Text × Text) → Text
hint_key hint none = hint
hint_key hint (some (key, value)) = key

module _ (tables : Tables) where
  add_hint : Text → StringMap → StringMap
  add_hint hint values =
      let (key, value) = key_and_value (trim_space hint) (cut b'=' (trim_space hint)) in
      if is_empty (trim_space key)
      then values
      else insert (normalize_setting_key tables (trim_space key)) (trim_space value) values

  hint_map : StringMap → List Text → StringMap
  unfolding add_hint
  hint_map values [] = values
  hint_map values (hint ∷ rest) = hint_map (add_hint hint values) rest

  unfoldable pub parse_hints : List Text → HintValues
  unfolding hint_map
  parse_hints hints = record { raw = hints; values = hint_map [] hints }

  -- `hintValues.value`.
  unfoldable pub hint_value : HintValues → Text → Text
  hint_value h key = trim_space (or_empty (lookup (normalize_setting_key tables key) h.values))

  unfoldable pub is_setup_key_name : Text → Bool
  is_setup_key_name value =
      text_eq (normalize_setting_key tables value) (codes "setupkey")
      || text_eq (normalize_setting_key tables value) (codes "netbirdsetupkey")

  -- The loop of `hasSetupKey`.
  unfoldable pub any_setup_key : List Text → Bool
  unfolding is_setup_key_name
  any_setup_key [] = false
  any_setup_key (hint ∷ rest) =
      is_setup_key_name (hint_key hint (cut b'=' hint)) || any_setup_key rest

  abbrev pub has_setup_key : HintValues → Bool
  has_setup_key h = any_setup_key h.raw

  unfoldable pub sso_requested : HintValues → Bool
  sso_requested h =
      is_truthy tables (hint_value h (codes "x-netbird-sso"))
      || not (is_empty (hint_value h (codes "x-netbird-sso-verification-uri")))
      || not (is_empty (hint_value h (codes "x-netbird-sso-verification-uri-complete")))
      || not (is_empty (hint_value h (codes "x-netbird-sso-user-code")))

  -- The loop of `firstSettingValue` over the map, in the order in which one iteration meets it.
  unfoldable pub normalized_values : Bool → StringMap → StringMap → StringMap
  normalized_values trim_value out [] = out
  normalized_values trim_value out ((key, value) ∷ rest) =
      normalized_values trim_value
        (insert (normalize_setting_key tables key) (if trim_value then trim_space value else value)
          out)
        rest

  unfoldable pub first_of_keys : StringMap → List Text → Text
  first_of_keys values [] = []
  first_of_keys values (key ∷ keys) =
      let value = or_empty (lookup (normalize_setting_key tables key) values) in
      if is_empty value then first_of_keys values keys else value

  unfoldable pub first_setting_value : StringMap → Bool → List Text → Text
  unfolding normalized_values first_of_keys
  first_setting_value values trim_value keys =
      if is_empty values then [] else first_of_keys (normalized_values trim_value [] values) keys
