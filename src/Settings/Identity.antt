-- ===== src/Settings/Identity.antt =====
-- internal/nmplugin/settings.go: the profile name and the user that a connection stands for. Both
-- read the sections in the order in which Go's map iteration meets them.
use network_manager_vpn_plug.Prelude.{
  not, ◌||◌, List, [], ◌∷◌, ◌++◌, Option, none, some, if◌then◌else◌, Text, codes, text_eq, is_empty,
}
use network_manager_vpn_plug.Go.Unicode.{Tables}
use network_manager_vpn_plug.Go.Strings.{trim_space, has_prefix, trim_prefix, cut, contains_text}
use network_manager_vpn_plug.Settings.Values.{
  text, Variant, scalar, text_list, variant_list, any_list, VariantMap, ConnectionSettings,
  variant_map_to_strings, scalar_texts,
}
use network_manager_vpn_plug.Settings.Normal.{
  normalize_setting_key, normalize_section_name, sanitize_profile_name_component,
}
use network_manager_vpn_plug.Settings.Flatten.{first_setting, normalize_string_map}

abbrev before_cut : Text → Option (Text × Text) → Text
before_cut s none = s
before_cut s (some (before, after)) = before

-- What `permissionUsersFromStrings` makes of one permission; empty if it names no user.
unfoldable pub permission_user : Text → Text
unfolding trim_space has_prefix trim_prefix cut
permission_user permission =
    let p = trim_space permission in
    let username = trim_prefix p (codes "user:") in
    if not (has_prefix p (codes "user:"))
    then []
    else trim_space (before_cut username (cut b':' username))

unfoldable pub permission_users_from_strings : List Text → List Text
unfolding permission_user
permission_users_from_strings [] = []
permission_users_from_strings (permission ∷ rest) =
    if is_empty (permission_user permission)
    then permission_users_from_strings rest
    else permission_user permission ∷ permission_users_from_strings rest

unfoldable pub permission_users : Variant → List Text
unfolding permission_users_from_strings scalar_texts
permission_users (text_list ps) = permission_users_from_strings ps
permission_users (variant_list ps) = permission_users_from_strings (scalar_texts ps)
permission_users (any_list ps) = permission_users_from_strings (scalar_texts ps)
permission_users (scalar (text p)) = permission_users_from_strings (p ∷ [])
permission_users _ = []

-- The set `users`, as the texts that are in it, each once.
unfoldable pub add_users : List Text → List Text → List Text
unfolding contains_text
add_users users [] = users
add_users users (u ∷ us) = add_users (if contains_text users u then users else u ∷ users) us

abbrev only_user : List Text → Text
only_user (user ∷ []) = user
only_user _ = []

module _ (tables : Tables) where
  unfoldable pub section_users : List Text → VariantMap → List Text
  unfolding add_users permission_users
  section_users users [] = users
  section_users users ((key, variant) ∷ rest) =
      section_users
        (if text_eq (normalize_setting_key tables key) (codes "permissions")
          then add_users users (permission_users variant)
          else users)
        rest

  unfoldable pub connection_users : List Text → ConnectionSettings → List Text
  unfolding section_users
  connection_users users [] = users
  connection_users users ((section, values) ∷ rest) =
      connection_users
        (if text_eq (normalize_section_name tables section) (codes "connection")
          then section_users users values
          else users)
        rest

  unfoldable pub network_manager_connection_permission_username : ConnectionSettings → Text
  unfolding connection_users
  network_manager_connection_permission_username settings = only_user (connection_users [] settings)

  unfoldable pub first_connection_setting : ConnectionSettings → List Text → Text
  unfolding normalize_string_map variant_map_to_strings first_setting
  first_connection_setting [] keys = []
  first_connection_setting ((section, values) ∷ rest) keys =
      let found =
        first_setting tables (normalize_string_map tables (variant_map_to_strings values)) keys in
      if not (text_eq (normalize_section_name tables section) (codes "connection"))
        || is_empty found
      then first_connection_setting rest keys
      else found

  -- `"nm-" + component`, or nothing.
  abbrev named : Text → Text
  named component = if is_empty component then [] else codes "nm-" ++ component

  unfoldable pub network_manager_connection_profile_name : ConnectionSettings → Text
  unfolding first_connection_setting sanitize_profile_name_component
  network_manager_connection_profile_name settings =
      let uuid =
        sanitize_profile_name_component (first_connection_setting settings (codes "uuid" ∷ [])) in
      let id =
        sanitize_profile_name_component (first_connection_setting settings (codes "id" ∷ [])) in
      if is_empty uuid then named id else named uuid
