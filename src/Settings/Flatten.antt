-- ===== src/Settings/Flatten.antt =====
-- internal/nmplugin/settings.go: the connection settings as one map of normalized keys, and the
-- lookups in it.
use network_manager_vpn_plug.Prelude.{
  Bool, not, ◌||◌, List, [], ◌∷◌, ◌++◌, Option, none, some, if◌then◌else◌, Text, codes, text_eq,
  is_empty,
}
use network_manager_vpn_plug.Go.Unicode.{Tables}
use network_manager_vpn_plug.Go.Strings.{trim_space}
use network_manager_vpn_plug.Go.Maps.{lookup, insert, sort_keys, or_empty}
use network_manager_vpn_plug.Settings.Values.{
  Variant, VariantMap, ConnectionSettings, StringMap, variant_to_string, variant_to_string_map,
}
use network_manager_vpn_plug.Settings.Normal.{
  normalize_setting_key, normalize_section_name, is_truthy,
}

-- `settingEntry`: the normalized key, and the value.
abbrev pub SettingEntry : Type 0
SettingEntry = Text × Variant

abbrev pub merge_value : StringMap → Text → Option Text → StringMap
merge_value values key none = values
merge_value values key (some value) = insert key (trim_space value) values

unfoldable pub merge_scalar_setting : StringMap → Text → Variant → StringMap
unfolding insert variant_to_string trim_space
merge_scalar_setting values key_name variant =
    if is_empty key_name then values else merge_value values key_name (variant_to_string variant)

module _ (tables : Tables) where
  unfoldable pub entries_of : VariantMap → List SettingEntry
  entries_of [] = []
  entries_of ((key, variant) ∷ rest) = (normalize_setting_key tables key, variant) ∷ entries_of rest

  -- The loop over sections that are sorted by name.
  unfoldable pub section_entries : Text → ConnectionSettings → List SettingEntry
  unfolding entries_of
  section_entries name [] = []
  section_entries name ((section, values) ∷ rest) =
      if text_eq (normalize_section_name tables section) name
      then entries_of (sort_keys values) ++ section_entries name rest
      else section_entries name rest

  unfoldable pub sorted_section_settings : ConnectionSettings → Text → List SettingEntry
  unfolding section_entries
  sorted_section_settings settings name = section_entries name (sort_keys settings)

  -- The loop of `mergeNormalizedStringMap` over entries that are sorted by key.
  unfoldable pub merge_entries : StringMap → StringMap → StringMap
  merge_entries dst [] = dst
  merge_entries dst ((key, value) ∷ rest) =
      merge_entries
        (if is_empty (normalize_setting_key tables key)
          then dst
          else insert (normalize_setting_key tables key) (trim_space value) dst)
        rest

  unfoldable pub merge_normalized_string_map : StringMap → StringMap → StringMap
  unfolding merge_entries
  merge_normalized_string_map dst src = merge_entries dst (sort_keys src)

  unfoldable pub normalize_string_map : StringMap → StringMap
  unfolding merge_normalized_string_map
  normalize_string_map values = merge_normalized_string_map [] values

  -- The three loops of `flattenConnectionSettings`.
  unfoldable pub merge_connection : StringMap → List SettingEntry → StringMap
  unfolding merge_scalar_setting
  merge_connection values [] = values
  merge_connection values ((key, variant) ∷ rest) =
      merge_connection
        (if text_eq key (codes "interfacename")
          then merge_scalar_setting values key variant
          else values)
        rest

  unfoldable pub merge_vpn : StringMap → List SettingEntry → StringMap
  unfolding merge_scalar_setting
  merge_vpn values [] = values
  merge_vpn values ((key, variant) ∷ rest) =
      merge_vpn
        (if text_eq key (codes "data") || text_eq key (codes "secrets")
          then values
          else merge_scalar_setting values key variant)
        rest

  unfoldable pub merge_nested : Text → StringMap → List SettingEntry → StringMap
  unfolding merge_normalized_string_map
  merge_nested nested values [] = values
  merge_nested nested values ((key, variant) ∷ rest) =
      merge_nested nested
        (if not (text_eq key nested)
          then values
          else merge_normalized_string_map values (variant_to_string_map variant))
        rest

  abbrev pub vpn_setting_name : Text
  vpn_setting_name = codes "vpn"

  unfoldable pub flatten_connection_settings : ConnectionSettings → StringMap
  unfolding merge_connection merge_vpn merge_nested sorted_section_settings
  flatten_connection_settings settings =
      let connection = sorted_section_settings settings (codes "connection") in
      let vpn = sorted_section_settings settings vpn_setting_name in
      merge_nested (codes "secrets")
        (merge_nested (codes "data") (merge_vpn (merge_connection [] connection) vpn) vpn) vpn

  -- One lookup of `firstSetting` and `boolSetting`.
  unfoldable pub setting_at : StringMap → Text → Text
  setting_at values key = trim_space (or_empty (lookup (normalize_setting_key tables key) values))

  unfoldable pub first_setting : StringMap → List Text → Text
  unfolding setting_at
  first_setting values [] = []
  first_setting values (key ∷ keys) =
      if is_empty (setting_at values key) then first_setting values keys else setting_at values key

  unfoldable pub bool_setting : StringMap → Text → Bool
  unfolding is_truthy
  bool_setting values key =
      is_truthy tables (or_empty (lookup (normalize_setting_key tables key) values))
