-- ===== src/Service/Queries.antt =====
-- internal/nmplugin/service.go and properties.go: the calls that change no state of the service.
use network_manager_vpn_plug.Prelude.{
  ℕ, not, [], ◌∷◌, List, if◌then◌else◌, Text, codes, text_eq, Result, ok, err,
}
use network_manager_vpn_plug.Go.Unicode.{Tables}
use network_manager_vpn_plug.Settings.Flatten.{vpn_setting_name}
use network_manager_vpn_plug.Settings.Parse.{needs_setup_key_secret, parse_activation_settings}
use network_manager_vpn_plug.Settings.Values.{ConnectionSettings}
use network_manager_vpn_plug.Service.State.{World, state_number}

-- The names of the D-Bus errors of properties.go.
pub data PropertyError : Type 0 where
  unknown_interface unknown_property property_read_only : Text → PropertyError

abbrev pub interface : Text
interface = codes "org.freedesktop.NetworkManager.VPN.Plugin"

-- `NeedSecrets`.
unfoldable pub need_secrets : Tables → ConnectionSettings → Text
unfolding needs_setup_key_secret
need_secrets tables settings =
    if needs_setup_key_secret (parse_activation_settings tables settings)
    then vpn_setting_name tables
    else []

-- `properties.Get`, with the number of the state.
unfoldable pub get_property : Text → Text → World → Result PropertyError ℕ
unfolding text_eq
get_property interface_name property_name w =
    if not (text_eq interface_name interface)
    then err (unknown_interface interface_name)
    else if text_eq property_name (codes "State")
    then ok (state_number w.state)
    else err (unknown_property property_name)

unfoldable pub get_all_properties : Text → World → Result PropertyError (List (Text × ℕ))
unfolding text_eq
get_all_properties interface_name w =
    if not (text_eq interface_name interface)
    then err (unknown_interface interface_name)
    else ok ((codes "State", state_number w.state) ∷ [])

-- `properties.Set`, which always fails.
unfoldable pub set_property : Text → Text → PropertyError
unfolding text_eq
set_property interface_name property_name =
    if not (text_eq interface_name interface)
    then unknown_interface interface_name
    else if not (text_eq property_name (codes "State"))
    then unknown_property property_name
    else property_read_only property_name
