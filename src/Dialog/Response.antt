-- ===== src/Dialog/Response.antt =====
-- internal/nmauthdialog/dialog.go: what the helper answers. Whether a desktop is there and how
-- `url.Parse` splits an address are parameters; the address to open is a part of the answer.
pub mod Rules
pub mod Partial
use network_manager_vpn_plug.Prelude.{
  ℕ, Bool, true, false, not, ◌&&◌, ◌||◌, List, [], ◌∷◌, ◌++◌, Option, none, some, ◌==◌,
  if◌then◌else◌, Text, codes, text_eq, is_empty,
}
use network_manager_vpn_plug.Go.Strings.{trim_space, to_lower, join}
use network_manager_vpn_plug.Go.Unicode.{Tables}
use network_manager_vpn_plug.Settings.Normal.{normalize_auth_mode}
use network_manager_vpn_plug.Settings.Parse.{auth_keys, setup_key_keys, activation_id_key}
use network_manager_vpn_plug.Dialog.Hints.{
  HintValues, parse_hints, hint_value, has_setup_key, sso_requested, first_setting_value,
}
use network_manager_vpn_plug.Dialog.Keyfile.{
  write_keyfile_ui_header, write_keyfile_entry, StandardSecret, write_standard_secrets,
}
use network_manager_vpn_plug.Dialog.Protocol.{VpnDetails}

-- `Options`, as far as the answer depends on them.
pub record Options : Type 0 where
  pub allow_interaction : Bool
  pub external_ui_mode : Bool
  pub reprompt : Bool
  pub hints : List Text

pub data ResponseError : Type 0 where
  interaction_unavailable sso_needs_interaction line_break_in_secret : ResponseError

-- The text written, the address that is opened in a browser, and the error. A text may be written
-- before an error; writing itself does not fail.
pub record Answer : Type 0 where
  pub output : Text
  pub opened : Option Text
  pub error : Option ResponseError

-- Scheme and host of an address that `url.Parse` accepts, and `hasDesktopOpenEnvironment`.
pub record Desktop : Type 0 where
  pub parse_url : Text → Option (Text × Text)
  pub has_desktop : Bool

abbrev pub written : Text → Answer
written output = record { output = output; opened = none; error = none }

abbrev pub refused : ResponseError → Answer
refused e = record { output = []; opened = none; error = some e }

-- The answer of `writeStandardSecrets`.
abbrev pub plain : Text × Bool → Answer
plain (output, true) = written output
plain (output, false) = record { output = output; opened = none; error = some line_break_in_secret }

abbrev standard_secret : Text → Text → StandardSecret
standard_secret key value = record { key = key; value = value }

unfoldable pub write_no_secret : Bool → Answer
unfolding write_keyfile_ui_header write_keyfile_entry write_standard_secrets
write_no_secret external =
    if external
    then written (
        write_keyfile_ui_header [] []
        ++ write_keyfile_entry (codes "no-secret") (codes "true") [] false false)
    else plain (write_standard_secrets (standard_secret (codes "no-secret") (codes "true") ∷ []))

-- `firstNonEmpty` of two texts.
abbrev pub first_non_empty : Text → Text → Text
first_non_empty s t = if is_empty (trim_space s) then trim_space t else trim_space s

module _ (tables : Tables) where
  -- `setupKeyRequirement`.
  unfoldable pub setup_key_requirement : HintValues → VpnDetails → Bool × Text
  setup_key_requirement hints details =
      let auth_mode =
        normalize_auth_mode tables (first_setting_value tables details.values true auth_keys) in
      let secret = first_setting_value tables details.secrets false setup_key_keys in
      (
        text_eq auth_mode (codes "setup-key") || has_setup_key tables hints,
        if is_empty secret
            then first_setting_value tables details.values true setup_key_keys
            else secret,
      )

  unfoldable pub write_internal_hint_entry : HintValues → Text → Text
  write_internal_hint_entry hints key =
      if is_empty (hint_value tables hints key)
      then []
      else write_keyfile_entry key (hint_value tables hints key) (codes "NetBird internal value")
          false false

  unfoldable pub write_internal_hint_entries : HintValues → Text
  unfolding write_internal_hint_entry
  write_internal_hint_entries hints =
      write_internal_hint_entry hints activation_id_key
      ++ (write_internal_hint_entry hints (codes "x-netbird-sso-verification-uri")
          ++ (write_internal_hint_entry hints (codes "x-netbird-sso-verification-uri-complete")
              ++ write_internal_hint_entry hints (codes "x-netbird-sso-user-code")))

  unfoldable pub write_external_setup_key : HintValues → Text → Bool → Text
  unfolding write_internal_hint_entries
  write_external_setup_key hints value should_ask =
      write_keyfile_ui_header (codes "NetBird authentication")
        (codes "Enter the NetBird setup key for this connection.")
      ++ (write_keyfile_entry (codes "setup-key") value (codes "Setup key") true should_ask
          ++ write_internal_hint_entries hints)

  unfoldable pub format_sso_description : HintValues → Text
  unfolding join
  format_sso_description hints =
      let code = hint_value tables hints (codes "x-netbird-sso-user-code") in
      join
        (codes "Complete NetBird SSO in the browser window that opens."
          ∷ ((if is_empty code then [] else (codes "User code: " ++ code) ∷ [])
              ++ (codes "After browser login completes, click Connect to finish activation." ∷ [])))
        (codes "\n\n")

  unfoldable pub append_hint_value : List StandardSecret → HintValues → Text → List StandardSecret
  append_hint_value values hints key =
      if is_empty (hint_value tables hints key)
      then values
      else values ++ (standard_secret key (hint_value tables hints key) ∷ [])

  module _ (desktop : Desktop) where
    abbrev pub web_address : Text → Option (Text × Text) → Option Text
    web_address trimmed none = none
    web_address trimmed (some (scheme, host)) =
        let s = to_lower tables scheme in
        if is_empty host
        then none
        else if text_eq s (codes "http") || text_eq s (codes "https")
        then some trimmed
        else none

    unfoldable pub validate_sso_browser_uri : Text → Option Text
    validate_sso_browser_uri raw =
        if is_empty (trim_space raw)
        then none
        else web_address (trim_space raw) (desktop.parse_url (trim_space raw))

    -- The address that `openSSOBrowser` hands to xdg-open.
    unfoldable pub open_sso_browser : HintValues → Option Text
    open_sso_browser hints =
        if not desktop.has_desktop
        then none
        else validate_sso_browser_uri (
            first_non_empty
              (hint_value tables hints (codes "x-netbird-sso-verification-uri-complete"))
              (hint_value tables hints (codes "x-netbird-sso-verification-uri")))

    -- `writeExternalSSO`.
    unfoldable pub write_external_sso : HintValues → Answer
    write_external_sso hints = record {
      output =
          write_keyfile_ui_header (codes "NetBird SSO login required")
            (format_sso_description hints)
          ++ (write_keyfile_entry (codes "x-netbird-sso-continue") (codes "true") (codes "Continue")
                false false
              ++ write_internal_hint_entry hints activation_id_key);
      opened = open_sso_browser hints;
      error = none;
    }

    -- `writeStandardSSO`.
    unfoldable pub write_standard_sso : HintValues → Answer
    unfolding append_hint_value
    write_standard_sso hints = plain (
        write_standard_secrets (
          append_hint_value (standard_secret (codes "x-netbird-sso-continue") (codes "true") ∷ [])
            hints activation_id_key))

    unfoldable pub write_sso_response : Options → HintValues → Answer
    write_sso_response opts hints =
        if not opts.allow_interaction
        then refused sso_needs_interaction
        else if opts.external_ui_mode
        then write_external_sso hints
        else write_standard_sso hints

    -- `writeResponse` where a setup key is needed.
    unfoldable pub write_setup_key : Options → HintValues → Text → Answer
    unfolding write_external_setup_key
    write_setup_key opts hints setup_key =
        let should_ask = opts.reprompt || is_empty (trim_space setup_key) in
        if should_ask && (not opts.external_ui_mode || not opts.allow_interaction)
        then refused interaction_unavailable
        else if opts.external_ui_mode
        then written (write_external_setup_key hints setup_key should_ask)
        else plain (write_standard_secrets (standard_secret (codes "setup-key") setup_key ∷ []))

    unfoldable pub write_response : Options → VpnDetails → Answer
    write_response opts details =
        let hints = parse_hints tables opts.hints in
        let (needs, setup_key) = setup_key_requirement hints details in
        if sso_requested tables hints
        then write_sso_response opts hints
        else if needs
        then write_setup_key opts hints setup_key
        else write_no_secret opts.external_ui_mode
