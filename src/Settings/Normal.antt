-- ===== src/Settings/Normal.antt =====
-- internal/nmplugin/settings.go: the normal forms of keys, section names, modes and names.
use network_manager_vpn_plug.Prelude.{
  ℕ, Bool, true, false, not, ◌&&◌, ◌||◌, [], ◌∷◌, ◌++◌, ◌==◌, if◌then◌else◌, Text, codes, text_eq,
  is_empty, filter,
}
use network_manager_vpn_plug.Go.Unicode.{Tables, within}
use network_manager_vpn_plug.Go.Strings.{
  trim_space, to_lower, replace_all, trim_prefix, trim, contains_text,
}

-- A code point that `normalizeSettingKey` keeps.
unfoldable pub is_key_rune : ℕ → Bool
is_key_rune c = within b'a' b'z' c || within b'0' b'9' c

unfoldable pub normalize_interface_name : Text → Text
unfolding trim_space
normalize_interface_name value =
    if text_eq (trim_space value) (codes "--") then [] else trim_space value

-- A code point that `sanitizeProfileNameComponent` keeps.
unfoldable pub is_name_rune : ℕ → Bool
is_name_rune c =
    within b'a' b'z' c
    || within b'A' b'Z' c
    || within b'0' b'9' c
    || c == b'-'
    || c == b'_'
    || c == b'.'

-- The loop of `sanitizeProfileNameComponent`: `b` is what is written, and the flag `lastSeparator`.
unfoldable pub sanitize_from : Text → Bool → Text → Text
sanitize_from b last_separator [] = b
sanitize_from b last_separator (c ∷ s) = elim (is_name_rune c) [
  | true ↦ sanitize_from (b ++ c ∷ []) false s
  | false ↦ elim (not (is_empty b) && not last_separator) [
    | true ↦ sanitize_from (b ++ b'-' ∷ []) true s
    | false ↦ sanitize_from b last_separator s
  ]
]

unfoldable pub sanitize_profile_name_component : Text → Text
unfolding sanitize_from trim trim_space
sanitize_profile_name_component value =
    trim (sanitize_from [] false (trim_space value)) (codes "-_.")

-- The `switch` of `normalizeAuthMode`.
unfoldable pub auth_mode_of : Text → Text
unfolding contains_text
auth_mode_of value =
    if contains_text (codes "setupkey" ∷ codes "setup-key" ∷ codes "key" ∷ []) value
    then codes "setup-key"
    else if contains_text
        (codes ""
          ∷ codes "sso"
          ∷ codes "browser"
          ∷ codes "interactive"
          ∷ codes "login"
          ∷ codes "force-login"
          ∷ codes "reuse"
          ∷ [])
        value
    then codes "sso"
    else value

module _ (tables : Tables) where
  unfoldable pub normalize_setting_key : Text → Text
  unfolding trim_space to_lower filter
  normalize_setting_key key = filter is_key_rune (to_lower tables (trim_space key))

  unfoldable pub normalize_section_name : Text → Text
  unfolding trim_space to_lower trim_prefix
  normalize_section_name section =
      trim_prefix (to_lower tables (trim_space section))
        (codes "org.freedesktop.networkmanager.settings.")

  unfoldable pub normalize_auth_mode : Text → Text
  unfolding auth_mode_of to_lower trim_space replace_all
  normalize_auth_mode value =
      auth_mode_of (replace_all b'_' b'-' (to_lower tables (trim_space value)))

  -- The `switch` of `boolSetting`.
  unfoldable pub is_truthy : Text → Bool
  unfolding contains_text to_lower trim_space
  is_truthy value =
      contains_text
        (codes "1" ∷ codes "t" ∷ codes "true" ∷ codes "y" ∷ codes "yes" ∷ codes "on" ∷ [])
        (to_lower tables (trim_space value))
