-- ===== src/Settings/Parse.antt =====
-- internal/nmplugin/settings.go: `activationSettings`, how they are parsed and merged, and the
-- requests made of them. The host name of the machine is a parameter.
use network_manager_vpn_plug.Prelude.{
  Bool, true, false, not, ◌&&◌, ◌||◌, List, [], ◌∷◌, if◌then◌else◌, Text, codes, text_eq, is_empty,
}
use network_manager_vpn_plug.Go.Unicode.{Tables}
use network_manager_vpn_plug.Go.Strings.{trim_space}
use network_manager_vpn_plug.Daemon.{ProfileRef}
use network_manager_vpn_plug.Settings.Values.{
  VariantMap, ConnectionSettings, StringMap, variant_map_to_strings,
}
use network_manager_vpn_plug.Settings.Normal.{normalize_interface_name, normalize_auth_mode}
use network_manager_vpn_plug.Settings.Flatten.{
  normalize_string_map, flatten_connection_settings, first_setting, bool_setting,
}
use network_manager_vpn_plug.Settings.Identity.{
  network_manager_connection_permission_username, network_manager_connection_profile_name,
}

pub record ActivationSettings : Type 0 where
  pub profile : ProfileRef
  pub setup_key : Text
  pub management_url : Text
  pub admin_url : Text
  pub hostname : Text
  pub interface_name : Text
  pub pre_shared_key : Text
  pub auth_mode : Text
  pub prompt_activation_id : Text
  pub sso_requested : Bool
  pub sso_verification_uri : Text
  pub sso_verification_uri_complete : Text
  pub sso_user_code : Text
  pub sso_continue : Bool
  pub sso_cancel : Bool

abbrev pub auth_keys : List Text
auth_keys = codes "auth" ∷ codes "auth-mode" ∷ codes "authentication" ∷ codes "login-mode" ∷ []

abbrev pub setup_key_keys : List Text
setup_key_keys = codes "setup-key" ∷ codes "setupKey" ∷ codes "netbird-setup-key" ∷ []

abbrev pub activation_id_key : Text
activation_id_key = codes "x-netbird-activation-id"

-- `needsSetupKeySecret`.
unfoldable pub needs_setup_key_secret : ActivationSettings → Bool
needs_setup_key_secret s =
    text_eq s.auth_mode (codes "setup-key") && is_empty (trim_space s.setup_key)

unfoldable pub should_login : ActivationSettings → Bool → Bool
should_login s interactive =
    if text_eq s.auth_mode (codes "setup-key")
    then true
    else if text_eq s.auth_mode (codes "sso")
    then interactive
    else false

unfoldable pub should_update_profile : ActivationSettings → Bool
should_update_profile s =
    if text_eq s.auth_mode (codes "setup-key") || text_eq s.auth_mode (codes "sso")
    then true
    else not (is_empty (trim_space s.management_url))
      || not (is_empty (trim_space s.admin_url))
      || not (is_empty (trim_space s.interface_name))
      || not (is_empty (trim_space s.pre_shared_key))

unfoldable pub is_auth_mode_valid : ActivationSettings → Bool
is_auth_mode_valid s =
    if text_eq s.auth_mode []
    then false
    else if not (text_eq s.auth_mode (codes "setup-key")) && not (text_eq s.auth_mode (codes "sso"))
    then false
    else true

-- `if value := strings.TrimSpace(text); value != "" { return value }`, or the other text.
abbrev trimmed_or : Text → Text → Text
trimmed_or text other = if is_empty (trim_space text) then other else trim_space text

unfoldable pub resolved_management_url : ActivationSettings → Text
resolved_management_url s = trimmed_or s.management_url (codes "https://api.netbird.io:443")

unfoldable pub resolved_admin_url : ActivationSettings → Text
resolved_admin_url s = trimmed_or s.admin_url (codes "https://app.netbird.io:443")

pub record LoginRequest : Type 0 where
  pub setup_key : Text
  pub management_url : Text
  pub admin_url : Text
  pub hostname : Text
  pub interface_name : Text
  pub pre_shared_key : Text
  pub profile : ProfileRef

-- `os_hostname` is what `os.Hostname` returns.
unfoldable pub daemon_login_request : Text → ActivationSettings → LoginRequest
unfolding resolved_management_url resolved_admin_url
daemon_login_request os_hostname s = record {
  setup_key = if text_eq s.auth_mode (codes "setup-key") then s.setup_key else [];
  management_url = resolved_management_url s;
  admin_url = resolved_admin_url s;
  hostname = trimmed_or s.hostname (trim_space os_hostname);
  interface_name = s.interface_name;
  pre_shared_key = s.pre_shared_key;
  profile = s.profile;
}

pub record UpdateProfileRequest : Type 0 where
  pub profile : ProfileRef
  pub management_url : Text
  pub admin_url : Text
  pub interface_name : Text
  pub pre_shared_key : Text

unfoldable pub daemon_update_profile_request : ActivationSettings → UpdateProfileRequest
unfolding resolved_management_url resolved_admin_url
daemon_update_profile_request s = record {
  profile = s.profile;
  management_url = resolved_management_url s;
  admin_url = resolved_admin_url s;
  interface_name = s.interface_name;
  pre_shared_key = s.pre_shared_key;
}

module _ (tables : Tables) where
  unfoldable pub parse_activation_settings : ConnectionSettings → ActivationSettings
  unfolding flatten_connection_settings first_setting bool_setting
      network_manager_connection_profile_name network_manager_connection_permission_username
      normalize_interface_name normalize_auth_mode
  parse_activation_settings settings =
      let values = flatten_connection_settings tables settings in
      let first = first_setting tables values in
      let profile_name = network_manager_connection_profile_name tables settings in
      let username =
        first
          (codes "netbird-username" ∷ codes "username" ∷ codes "user-name" ∷ codes "user" ∷ []) in
      record {
        profile = record {
          id = [];
          profile_name = profile_name;
          username =
              if is_empty username && not (is_empty profile_name)
              then network_manager_connection_permission_username tables settings
              else username;
        };
        setup_key = first setup_key_keys;
        management_url =
            first (
              codes "management-url" ∷ codes "managementUrl" ∷ codes "netbird-management-url" ∷ []);
        admin_url = first (codes "admin-url" ∷ codes "adminURL" ∷ codes "netbird-admin-url" ∷ []);
        hostname = first (codes "hostname" ∷ codes "host-name" ∷ []);
        interface_name = normalize_interface_name (
            first (
              codes "interface-name"
              ∷ codes "interfaceName"
              ∷ codes "netbird-interface-name"
              ∷ []));
        pre_shared_key =
            first (codes "pre-shared-key" ∷ codes "preshared-key" ∷ codes "preSharedKey" ∷ []);
        auth_mode = normalize_auth_mode tables (first auth_keys);
        prompt_activation_id = first (activation_id_key ∷ []);
        sso_requested = bool_setting tables values (codes "x-netbird-sso");
        sso_verification_uri = first (codes "x-netbird-sso-verification-uri" ∷ []);
        sso_verification_uri_complete =
            first (codes "x-netbird-sso-verification-uri-complete" ∷ []);
        sso_user_code = first (codes "x-netbird-sso-user-code" ∷ []);
        sso_continue = bool_setting tables values (codes "x-netbird-sso-continue");
        sso_cancel = bool_setting tables values (codes "x-netbird-sso-cancel");
      }

  -- `mergeStringDetail`: a setting that is not blank replaces the field.
  unfoldable pub merge_string_detail : StringMap → Text → List Text → Text
  unfolding first_setting
  merge_string_detail values field keys =
      if is_empty (first_setting tables values keys)
      then field
      else first_setting tables values keys

  -- `mergeDetails`, on the normalized details.
  unfoldable pub merge_values : ActivationSettings → StringMap → ActivationSettings
  unfolding merge_string_detail bool_setting normalize_auth_mode
  merge_values s values = record s {
    auth_mode =
        if is_empty (first_setting tables values auth_keys)
        then s.auth_mode
        else normalize_auth_mode tables (first_setting tables values auth_keys);
    setup_key = merge_string_detail values s.setup_key setup_key_keys;
    prompt_activation_id =
        merge_string_detail values s.prompt_activation_id (activation_id_key ∷ []);
    sso_verification_uri =
        merge_string_detail values s.sso_verification_uri
          (codes "x-netbird-sso-verification-uri" ∷ []);
    sso_verification_uri_complete =
        merge_string_detail values s.sso_verification_uri_complete
          (codes "x-netbird-sso-verification-uri-complete" ∷ []);
    sso_user_code =
        merge_string_detail values s.sso_user_code (codes "x-netbird-sso-user-code" ∷ []);
    sso_requested = bool_setting tables values (codes "x-netbird-sso") || s.sso_requested;
    sso_continue = bool_setting tables values (codes "x-netbird-sso-continue") || s.sso_continue;
    sso_cancel = bool_setting tables values (codes "x-netbird-sso-cancel") || s.sso_cancel;
  }

  unfoldable pub merge_details : ActivationSettings → VariantMap → ActivationSettings
  unfolding merge_values normalize_string_map variant_map_to_strings
  merge_details s details =
      if is_empty details
      then s
      else merge_values s (normalize_string_map tables (variant_map_to_strings details))
