-- ===== src/Witnesses/Names.antt =====
-- internal/nmplugin/settings.go: a connection with one key in its data and its secrets.
use network_manager_vpn_plug.Prelude.{[], ◌∷◌, ◌≡◌, Text, codes, All}
use network_manager_vpn_plug.Go.Maps.{lookup}
use network_manager_vpn_plug.Settings.Flatten.{
  flatten_connection_settings, sorted_section_settings, vpn_setting_name,
}
use network_manager_vpn_plug.Settings.Names.{IsNameRune, sanitize_lem}
use network_manager_vpn_plug.Settings.Normal.{sanitize_profile_name_component}
use network_manager_vpn_plug.Settings.Precedence.{
  is_interface_name, is_scalar_key, last_nested, last_scalar, lookup-flatten_connection_settings,
  or_else,
}
use network_manager_vpn_plug.Settings.Values.{ConnectionSettings, text_map}
use network_manager_vpn_plug.Status.Words.{ascii_only}

sanitize_example :
    All IsNameRune (sanitize_profile_name_component (codes " Büro #1 "))
    × (sanitize_profile_name_component (sanitize_profile_name_component (codes " Büro #1 "))
        ≡ sanitize_profile_name_component (codes " Büro #1 "))
sanitize_example = sanitize_lem (codes " Büro #1 ")

abbrev connection : ConnectionSettings
connection =
    (
      codes "vpn",
      (codes "data", text_map ((codes "setup-key", codes "old") ∷ []))
          ∷ (codes "secrets", text_map ((codes "setupKey", codes "new") ∷ []))
          ∷ [],
    )
    ∷ []

abbrev key : Text
key = codes "setupkey"

lookup-flatten_connection_settings_example :
    lookup key (flatten_connection_settings ascii_only connection)
    ≡ or_else
        (last_nested ascii_only key
          (codes "secrets")
          (sorted_section_settings ascii_only connection (vpn_setting_name ascii_only)))
        (or_else
          (last_nested ascii_only key
            (codes "data")
            (sorted_section_settings ascii_only connection (vpn_setting_name ascii_only)))
          (or_else
            (last_scalar is_scalar_key key
              (sorted_section_settings ascii_only connection (vpn_setting_name ascii_only)))
            (last_scalar is_interface_name key
              (sorted_section_settings ascii_only connection (codes "connection")))))
lookup-flatten_connection_settings_example =
    lookup-flatten_connection_settings ascii_only key connection
