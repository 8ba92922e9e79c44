-- ===== src/Dialog/Run.antt =====
-- internal/nmauthdialog/dialog.go: `Run`, the whole helper, and the desktop that it looks for. The
-- environment, the file system and the browser's process are parameters; what is written to stderr is
-- the error, and what xdg-open itself writes is left out.
pub mod Rules
pub mod Browser
use network_manager_vpn_plug.Prelude.{
  ℕ, Bool, true, false, not, ◌&&◌, ◌||◌, List, [], ◌∷◌, ◌++◌, Option, none, some, ◌==◌,
  if◌then◌else◌, Text, codes, is_empty, Result, ok, err,
}
use network_manager_vpn_plug.Go.Decimal.{ℤ}
use network_manager_vpn_plug.Go.Strings.{has_prefix, trim_space}
use network_manager_vpn_plug.Go.Unicode.{Tables}
use network_manager_vpn_plug.Grpc.Dial.{is_positive}
use network_manager_vpn_plug.Dialog.Args.{Arguments, ArgsError, parse_args}
use network_manager_vpn_plug.Dialog.Protocol.{ProtocolError, VpnDetails}
use network_manager_vpn_plug.Dialog.Protocol.Reading.{read_vpn_details}
use network_manager_vpn_plug.Dialog.Response.{
  Answer, Desktop, Options, ResponseError, validate_sso_browser_uri, write_response,
}

-- How `openBrowserAndWait` ends.
pub data BrowserEnd : Type 0 where
  opened start_failed failed timed_out : BrowserEnd

-- `os.Getenv`, `os.Stat` of the bus below a directory, `url.Parse`, `time.ParseDuration`, the tables of
-- unicode, and xdg-open on an address under a timeout.
pub record Machine : Type 0 where
  pub getenv : Text → Text
  pub has_bus : Text → Bool
  pub parse_url : Text → Option (Text × Text)
  pub parse_duration : Text → Option ℤ
  pub tables : Tables
  pub open_browser : Text → ℤ → BrowserEnd

-- `strings.Split` at one rune.
unfoldable pub split_at : ℕ → Text → List Text
split_at sep [] = [] ∷ []
split_at sep (c ∷ s) =
    let rest = split_at sep s in
    if c == sep then [] ∷ rest else elim rest [ [] ↦ (c ∷ []) ∷ [] | w ∷ ws ↦ (c ∷ w) ∷ ws ]

-- The loop over addresses of `hasSessionBusEnvironment`.
unfoldable pub any_bus_address : List Text → Bool
unfolding trim_space has_prefix
any_bus_address [] = false
any_bus_address (a ∷ rest) =
    (not (is_empty (trim_space a)) && not (has_prefix (trim_space a) (codes "autolaunch:")))
    || any_bus_address rest

pub data RunError : Type 0 where
  args_failed : ArgsError → RunError
  invalid_test_url timeout_not_positive no_desktop : RunError
  browser_failed : BrowserEnd → RunError
  details_failed : ProtocolError → RunError
  response_failed : ResponseError → RunError

-- What `Run` does: the exit code, what is on stdout, the address that is opened, and the error.
pub record Outcome : Type 0 where
  pub exit_code : ℕ
  pub output : Text
  pub opened_uri : Option Text
  pub error : Option RunError

abbrev pub failed_with : RunError → Outcome
failed_with e = record { exit_code = 1; output = []; opened_uri = none; error = some e }

abbrev pub response_options : Arguments → Options
response_options o = record {
  allow_interaction = o.allow_interaction;
  external_ui_mode = o.external_ui_mode;
  reprompt = o.reprompt;
  hints = o.hints;
}

abbrev pub exit_code_of : Option ResponseError → ℕ
exit_code_of none = 0
exit_code_of (some e) = 1

abbrev pub run_error_of : Option ResponseError → Option RunError
run_error_of none = none
run_error_of (some e) = some (response_failed e)

-- What is written before an error stays on stdout.
abbrev pub answered : Answer → Outcome
answered a = record {
  exit_code = exit_code_of a.error;
  output = a.output;
  opened_uri = a.opened;
  error = run_error_of a.error;
}

module _ (machine : Machine) where
  abbrev address : Text
  address = machine.getenv (codes "DBUS_SESSION_BUS_ADDRESS")

  abbrev runtime_dir : Text
  runtime_dir = machine.getenv (codes "XDG_RUNTIME_DIR")

  unfoldable pub has_session_bus_environment : Bool
  unfolding any_bus_address split_at
  has_session_bus_environment =
      (not (is_empty address) && any_bus_address (split_at b',' address))
      || (not (is_empty runtime_dir) && machine.has_bus runtime_dir)

  unfoldable pub has_desktop_open_environment : Bool
  unfolding has_session_bus_environment
  has_desktop_open_environment =
      not (is_empty (machine.getenv (codes "DISPLAY")))
      || not (is_empty (machine.getenv (codes "WAYLAND_DISPLAY")))
      || has_session_bus_environment

  abbrev pub desktop : Desktop
  desktop = record { parse_url = machine.parse_url; has_desktop = has_desktop_open_environment }

  abbrev pub after_browser : Text → BrowserEnd → Outcome
  after_browser uri opened = record {
    exit_code = 0;
    output = codes "opened " ++ uri ++ codes "\n";
    opened_uri = some uri;
    error = none;
  }
  after_browser uri start_failed = failed_with (browser_failed start_failed)
  after_browser uri e = record (failed_with (browser_failed e)) { opened_uri = some uri }

  abbrev pub browser_test_at : Arguments → Option Text → Outcome
  browser_test_at o none = failed_with invalid_test_url
  browser_test_at o (some uri) =
      if not (is_positive o.test_browser_timeout)
      then failed_with timeout_not_positive
      else if not o.test_browser_force && not has_desktop_open_environment
      then failed_with no_desktop
      else after_browser uri (machine.open_browser uri o.test_browser_timeout)

  unfoldable pub run_browser_test : Arguments → Outcome
  unfolding has_desktop_open_environment validate_sso_browser_uri
  run_browser_test o =
      browser_test_at o (validate_sso_browser_uri machine.tables desktop o.test_browser_url)

  abbrev pub with_details : Arguments → Result ProtocolError VpnDetails → Outcome
  with_details o (err e) = failed_with (details_failed e)
  with_details o (ok details) =
      answered (write_response machine.tables desktop (response_options o) details)

  abbrev pub with_args : Result ArgsError Arguments → Text → Outcome
  with_args (err e) stdin = failed_with (args_failed e)
  with_args (ok o) stdin =
      if not (is_empty (trim_space o.test_browser_url))
      then run_browser_test o
      else with_details o (read_vpn_details stdin)

  -- `Run`.
  unfoldable pub run : List Text → Text → Outcome
  unfolding parse_args run_browser_test read_vpn_details write_response
  run args stdin = with_args (parse_args machine.parse_duration args) stdin
