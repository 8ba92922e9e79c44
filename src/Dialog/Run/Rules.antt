-- ===== src/Dialog/Run/Rules.antt =====
-- internal/nmauthdialog/dialog.go, `Run`: what an exit code says.
use network_manager_vpn_plug.Prelude.{
  true, false, Option, List, [], none, ◌≡◌, ◌≢◌, Text, is_empty, ok, ◌⊎◌,
}
use network_manager_vpn_plug.Go.Strings.{trim_space}
use network_manager_vpn_plug.Dialog.Args.{Arguments, parse_args, service_name}
use network_manager_vpn_plug.Dialog.Protocol.{VpnDetails}
use network_manager_vpn_plug.Dialog.Protocol.Reading.{read_vpn_details}
use network_manager_vpn_plug.Dialog.Hints.{parse_hints, sso_requested}
use network_manager_vpn_plug.Dialog.Response.{Answer, ResponseError, write_response}
use network_manager_vpn_plug.Dialog.Response.Partial.{continue_marker}
use network_manager_vpn_plug.Dialog.Run.{
  Machine, Outcome, run_error_of, desktop, response_options, run_browser_test,
}

-- What the arguments name: a connection of this plugin, by UUID and name.
pub record Names (o : Arguments) : Type 0 where
  pub uuid : is_empty (trim_space o.uuid) ≡ false
  pub name : is_empty (trim_space o.name) ≡ false
  pub service : o.service ≡ service_name

abbrev answer : Text → Option Text → Option ResponseError → Answer
answer output opened error = record { output = output; opened = opened; error = error }

module _ (machine : Machine) where
  -- What `writeResponse` writes, opens and reports for the details that stdin holds.
  pub record Answered (o : Arguments) (stdin : Text) (r : Outcome) : Type 0 where
    pub named : Names o
    pub details : VpnDetails
    pub read : read_vpn_details stdin ≡ ok details
    pub output :
        r.output
        ≡ (write_response machine.tables (desktop machine) (response_options o) details).output
    pub opened :
        r.opened_uri
        ≡ (write_response machine.tables (desktop machine) (response_options o) details).opened
    pub error :
        r.error
        ≡ run_error_of
            (write_response machine.tables (desktop machine) (response_options o) details).error

  -- Nothing on stdout, or the marker of a plain answer to an SSO login.
  abbrev pub AtMostMarker : Arguments → Outcome → Type 0
  AtMostMarker o r =
      (r.output ≡ [])
      ⊎ ((r.output ≡ continue_marker)
          × (o.external_ui_mode ≡ false)
          × (o.allow_interaction ≡ true)
          × (sso_requested machine.tables (parse_hints machine.tables o.hints) ≡ true))

  -- How a run ends.
  pub data Ended (args : List Text) (stdin : Text) (r : Outcome) : Type 0 where
    with_failure :
        r.exit_code ≡ 1 → r.output ≡ [] → r.opened_uri ≡ none → r.error ≢ none → Ended args stdin r
    with_test :
        (o : Arguments)
        → parse_args machine.parse_duration args ≡ ok o
        → r ≡ run_browser_test machine o
        → Ended args stdin r
    with_answer :
        (o : Arguments)
        → parse_args machine.parse_duration args ≡ ok o
        → r.exit_code ≡ 0
        → r.error ≡ none
        → Answered o stdin r
        → Ended args stdin r
    with_refusal :
        (o : Arguments)
        → parse_args machine.parse_duration args ≡ ok o
        → r.exit_code ≡ 1
        → r.error ≢ none
        → Answered o stdin r
        → AtMostMarker o r
        → Ended args stdin r
