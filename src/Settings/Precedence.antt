-- ===== src/Settings/Precedence.antt =====
-- internal/nmplugin/settings.go, `flattenConnectionSettings`: which of several values of a key counts.
use network_manager_vpn_plug.Prelude.{
  Bool, true, false, not, ◌&&◌, ◌||◌, List, [], ◌∷◌, Option, none, some, ◌≡◌, refl, arith,
  if◌then◌else◌, Text, codes, text_eq, is_empty, ◌∙◌, ap, sym,
}
use network_manager_vpn_plug.Go.Unicode.{Tables}
use network_manager_vpn_plug.Go.Strings.{trim_space}
use network_manager_vpn_plug.Go.Maps.{lookup, insert, lookup-insert, sort_keys}
use network_manager_vpn_plug.Settings.Values.{
  Variant, ConnectionSettings, StringMap, variant_to_string, variant_to_string_map,
}
use network_manager_vpn_plug.Settings.Normal.{normalize_setting_key}
use network_manager_vpn_plug.Settings.Flatten.{
  SettingEntry, merge_value, merge_scalar_setting, sorted_section_settings, merge_entries,
  merge_normalized_string_map, merge_connection, merge_vpn, merge_nested, vpn_setting_name,
  flatten_connection_settings,
}

-- The first of two values that is there.
abbrev pub or_else : Option Text → Option Text → Option Text
or_else none other = other
or_else (some t) other = some t

or_else_assoc : (a b c : Option Text) → or_else (or_else a b) c ≡ or_else a (or_else b c)
or_else_assoc none b c = refl
or_else_assoc (some t) b c = refl

or_else-none : (a : Option Text) → or_else a none ≡ a
or_else-none none = refl
or_else-none (some t) = refl

abbrev trimmed : Option Text → Option Text
trimmed none = none
trimmed (some t) = some (trim_space t)

-- A value for the key `k`, if this is its key.
abbrev at_key : Text → Text → Option Text → Option Text
at_key k key value = if not (is_empty key) && text_eq key k then trimmed value else none

-- The last value of the key `k` among the entries that a test picks.
unfoldable pub last_scalar : (Text → Bool) → Text → List SettingEntry → Option Text
last_scalar picked k [] = none
last_scalar picked k ((key, variant) ∷ rest) =
    or_else (last_scalar picked k rest)
      (if picked key then at_key k key (variant_to_string variant) else none)

lookup-merge_value :
    (k : Text) (values : StringMap) (key : Text) (value : Option Text)
    → lookup k (if is_empty key then values else merge_value values key value)
      ≡ or_else (at_key k key value) (lookup k values)
lookup-merge_value k values key none = ground arith
lookup-merge_value k values key (some t) = ground (arith, lookup-insert key k (trim_space t) values)

lookup-merge_scalar_setting :
    (k : Text) (values : StringMap) (key : Text) (variant : Variant)
    → lookup k (merge_scalar_setting values key variant)
      ≡ or_else (at_key k key (variant_to_string variant)) (lookup k values)
unfolding merge_scalar_setting
lookup-merge_scalar_setting k values key variant =
    lookup-merge_value k values key (variant_to_string variant)

abbrev pub is_interface_name : Text → Bool
is_interface_name key = text_eq key (codes "interfacename")

abbrev pub is_scalar_key : Text → Bool
is_scalar_key key = not (text_eq key (codes "data") || text_eq key (codes "secrets"))

lookup-picked :
    (k : Text) (b : Bool) (values : StringMap) (key : Text) (variant : Variant)
    → lookup k (if b then merge_scalar_setting values key variant else values)
      ≡ or_else (if b then at_key k key (variant_to_string variant) else none) (lookup k values)
lookup-picked k true values key variant = lookup-merge_scalar_setting k values key variant
lookup-picked k false values key variant = refl

lookup-unpicked :
    (k : Text) (b : Bool) (values : StringMap) (key : Text) (variant : Variant)
    → lookup k (if b then values else merge_scalar_setting values key variant)
      ≡ or_else (if not b then at_key k key (variant_to_string variant) else none) (lookup k values)
lookup-unpicked k true values key variant = refl
lookup-unpicked k false values key variant = lookup-merge_scalar_setting k values key variant

module _ (tables : Tables) (k : Text) where
  lookup-merge_connection :
      (entries : List SettingEntry) (values : StringMap)
      → lookup k (merge_connection tables values entries)
        ≡ or_else (last_scalar is_interface_name k entries) (lookup k values)
  unfolding merge_connection last_scalar
  lookup-merge_connection [] values = refl
  lookup-merge_connection ((key, variant) ∷ rest) values =
      lookup-merge_connection rest _
      ∙ ap (or_else (last_scalar is_interface_name k rest))
          (lookup-picked k (is_interface_name key) values key variant)
      ∙ sym (or_else_assoc (last_scalar is_interface_name k rest) _ _)

  lookup-merge_vpn :
      (entries : List SettingEntry) (values : StringMap)
      → lookup k (merge_vpn tables values entries)
        ≡ or_else (last_scalar is_scalar_key k entries) (lookup k values)
  unfolding merge_vpn last_scalar
  lookup-merge_vpn [] values = refl
  lookup-merge_vpn ((key, variant) ∷ rest) values =
      lookup-merge_vpn rest _
      ∙ ap (or_else (last_scalar is_scalar_key k rest)) (
          lookup-unpicked k (text_eq key (codes "data") || text_eq key (codes "secrets")) values key
            variant)
      ∙ sym (or_else_assoc (last_scalar is_scalar_key k rest) _ _)

  -- The last value of the key `k` in a map of texts, in the order of its keys.
  unfoldable pub last_text : StringMap → Option Text
  last_text [] = none
  last_text ((key, value) ∷ rest) =
      or_else (last_text rest) (at_key k (normalize_setting_key tables key) (some value))

  lookup-merge_entries :
      (src dst : StringMap)
      → lookup k (merge_entries tables dst src) ≡ or_else (last_text src) (lookup k dst)
  unfolding merge_entries last_text
  lookup-merge_entries [] dst = refl
  lookup-merge_entries ((key, value) ∷ rest) dst =
      let n = normalize_setting_key tables key in
      lookup-merge_entries rest (if is_empty n then dst else insert n (trim_space value) dst)
      ∙ ap (or_else (last_text rest)) (lookup-merge_value k dst n (some value))
      ∙ sym (or_else_assoc (last_text rest) (at_key k n (some value)) (lookup k dst))

  -- The last value of the key `k` in the nested maps with this name.
  unfoldable pub last_nested : Text → List SettingEntry → Option Text
  last_nested nested [] = none
  last_nested nested ((key, variant) ∷ rest) =
      or_else (last_nested nested rest)
        (if text_eq key nested then last_text (sort_keys (variant_to_string_map variant)) else none)

  lookup-nested :
      (b : Bool) (src values : StringMap)
      → lookup k (if not b then values else merge_entries tables values src)
        ≡ or_else (if b then last_text src else none) (lookup k values)
  lookup-nested true src values = lookup-merge_entries src values
  lookup-nested false src values = refl

  lookup-merge_nested :
      (nested : Text) (entries : List SettingEntry) (values : StringMap)
      → lookup k (merge_nested tables nested values entries)
        ≡ or_else (last_nested nested entries) (lookup k values)
  unfolding merge_nested last_nested merge_normalized_string_map
  lookup-merge_nested nested [] values = refl
  lookup-merge_nested nested ((key, variant) ∷ rest) values =
      lookup-merge_nested nested rest _
      ∙ ap (or_else (last_nested nested rest))
          (lookup-nested (text_eq key nested) (sort_keys (variant_to_string_map variant)) values)
      ∙ sym (or_else_assoc (last_nested nested rest) _ _)

  -- A key has the value of the connection's secrets if they have it, or else that of its data, or
  -- else that of the VPN section itself, or else, for `interface-name` alone, that of the connection
  -- section; within each of them the last one in the order of sections and keys counts.
  pub lookup-flatten_connection_settings :
      (settings : ConnectionSettings)
      → let vpn = sorted_section_settings tables settings (vpn_setting_name tables) in
        let connection = sorted_section_settings tables settings (codes "connection") in
        lookup k (flatten_connection_settings tables settings)
        ≡ or_else (last_nested (codes "secrets") vpn) (
            or_else (last_nested (codes "data") vpn) (
              or_else
                (last_scalar is_scalar_key k vpn)
                (last_scalar is_interface_name k connection)))
  unfolding flatten_connection_settings lookup
  lookup-flatten_connection_settings settings =
      let vpn = sorted_section_settings tables settings (vpn_setting_name tables) in
      let connection = sorted_section_settings tables settings (codes "connection") in
      lookup-merge_nested (codes "secrets") vpn _
      ∙ ap (or_else (last_nested (codes "secrets") vpn)) (
          lookup-merge_nested (codes "data") vpn _
          ∙ ap (or_else (last_nested (codes "data") vpn)) (
              lookup-merge_vpn vpn _
              ∙ ap (or_else (last_scalar is_scalar_key k vpn))
                  (lookup-merge_connection connection [] ∙ or_else-none _)))
