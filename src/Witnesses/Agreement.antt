-- ===== src/Witnesses/Agreement.antt =====
-- internal/nmauthdialog with internal/nmplugin: data that wants a setup key, in two orders.
use network_manager_vpn_plug.Prelude.{
  ◌&&◌, if◌then◌else◌, true, false, [], ◌∷◌, some, ◌≡◌, refl, text_eq, codes,
}
use network_manager_vpn_plug.Go.Maps.{insert, lookup, sort_keys}
use network_manager_vpn_plug.Go.Order.{swap}
use network_manager_vpn_plug.Go.Strings.{cut, trim_space, to_lower}
use network_manager_vpn_plug.Settings.Normal.{
  is_key_rune, is_truthy, normalize_section_name, normalize_setting_key,
}
use network_manager_vpn_plug.Service.Queries.{need_secrets}
use network_manager_vpn_plug.Settings.Parse.{needs_setup_key_secret, parse_activation_settings}
use network_manager_vpn_plug.Settings.Values.{StringMap, variant_to_string_map}
use network_manager_vpn_plug.Status.Words.{ascii_only}
use network_manager_vpn_plug.Dialog.Hints.{hint_value, parse_hints, sso_requested}
use network_manager_vpn_plug.Dialog.Agreement.{details_of, need_secrets_answered, settings_of}
use network_manager_vpn_plug.Dialog.Iteration.{has_distinct_keys}
use network_manager_vpn_plug.Dialog.Response.{
  Desktop, Options, interaction_unavailable, refused, write_external_setup_key, write_response,
  written,
}

abbrev desktop : Desktop
desktop = record {
  parse_url = λ address. some (codes "HTTPS", codes "login.example.org");
  has_desktop = true;
}

-- A frontend that may interact, without an SSO login.
abbrev prompting : Options
prompting = record {
  allow_interaction = true;
  external_ui_mode = true;
  reprompt = false;
  hints = codes "x-netbird-activation-id=1" ∷ [];
}

-- Data of a connection that wants a setup key.
abbrev key_data : StringMap
key_data = (codes "Auth", codes "setup_key ") ∷ (codes "Profile", codes "work") ∷ []

-- The same data, met in the other order.
abbrev key_values : StringMap
key_values = (codes "Profile", codes "work") ∷ (codes "Auth", codes "setup_key ") ∷ []

need_secrets_answered_example :
    write_response ascii_only desktop prompting (details_of ascii_only key_values) ≡ (
      if prompting.external_ui_mode && prompting.allow_interaction
      then written (
          write_external_setup_key ascii_only
            (parse_hints ascii_only prompting.hints)
            (settings_of ascii_only key_data).setup_key
            true)
      else refused interaction_unavailable)
unfolding need_secrets needs_setup_key_secret parse_activation_settings lookup sort_keys text_eq
    trim_space to_lower is_key_rune normalize_setting_key sso_requested is_truthy hint_value
    parse_hints cut insert normalize_section_name variant_to_string_map has_distinct_keys
need_secrets_answered_example =
    need_secrets_answered ascii_only key_data key_values desktop prompting
      (swap (codes "Profile") (codes "Auth") (codes "work") (codes "setup_key ") [] refl) refl refl
      refl
