-- ===== src/Service/Prompts.antt =====
-- internal/nmplugin/prompts.go: the texts of prompts.
use network_manager_vpn_plug.Prelude.{ℕ, List, [], ◌∷◌, ◌++◌, if◌then◌else◌, Text, codes, is_empty}
use network_manager_vpn_plug.Go.Decimal.{format_uint}
use network_manager_vpn_plug.Go.Strings.{join}
use network_manager_vpn_plug.Daemon.Messages.{LoginResponse}
use network_manager_vpn_plug.Settings.Parse.{ActivationSettings, activation_id_key}

abbrev pub setup_key_required_message : Text
setup_key_required_message = codes "NetBird setup key required."

abbrev pub sso_required_message : Text
sso_required_message = codes "NetBird SSO login required."

abbrev pub interactive_sso_required_message : Text
interactive_sso_required_message =
    codes "This profile needs interactive SSO; rerun with nmcli connection up <name> --ask."

unfoldable pub format_prompt_hint : Text → Text → Text
format_prompt_hint key value = key ++ (codes "=" ++ value)

unfoldable pub format_activation_id : ℕ → Text
unfolding format_uint
format_activation_id id = format_uint id

unfoldable pub setup_key_prompt_hints : ℕ → List Text
unfolding format_prompt_hint format_activation_id
setup_key_prompt_hints id =
    codes "setup-key" ∷ format_prompt_hint activation_id_key (format_activation_id id) ∷ []

-- A hint whose value is not empty, before the others.
abbrev hint_before : Text → Text → List Text → List Text
hint_before key [] rest = rest
hint_before key (c ∷ s) rest = format_prompt_hint key (c ∷ s) ∷ rest

unfoldable pub sso_prompt_hints : ℕ → LoginResponse → List Text
unfolding format_prompt_hint format_activation_id
sso_prompt_hints id response =
    format_prompt_hint activation_id_key (format_activation_id id)
    ∷ format_prompt_hint (codes "x-netbird-sso") (codes "true")
    ∷ codes "x-netbird-sso-continue"
    ∷ hint_before (codes "x-netbird-sso-verification-uri") response.verification_uri (
        hint_before (codes "x-netbird-sso-verification-uri-complete")
          response.verification_uri_complete
          (hint_before (codes "x-netbird-sso-user-code") response.user_code []))

unfoldable pub format_sso_login_banner : LoginResponse → Text
unfolding join
format_sso_login_banner response =
    let code =
      if is_empty response.user_code then [] else (codes "Code: " ++ response.user_code) ∷ [] in
    let open_uri =
      if is_empty response.verification_uri_complete
      then (if is_empty response.verification_uri
          then []
          else (codes "Open: " ++ response.verification_uri) ∷ [])
      else (codes "Open: " ++ response.verification_uri_complete) ∷ [] in
    join (sso_required_message ∷ (open_uri ++ code)) (codes " ")

unfoldable pub merge_prompt_settings : ActivationSettings → ActivationSettings → ActivationSettings
merge_prompt_settings current delivered =
    if is_empty delivered.setup_key
    then current
    else record current { setup_key = delivered.setup_key }
