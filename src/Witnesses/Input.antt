-- ===== src/Witnesses/Input.antt =====
-- internal/nmauthdialog/dialog.go: a text on stdin with two pairs, and one more line behind them.
use network_manager_vpn_plug.Prelude.{
  true, false, List, [], none, some, ◌∷◌, ◌≡◌, ◌⊎◌, if◌then◌else◌, refl, text_eq, arith, Text,
  codes, All, ok,
}
use network_manager_vpn_plug.Go.Strings.{cut, cut_prefix, mem_text, to_lower, trim_space}
use network_manager_vpn_plug.Dialog.Protocol.{
  classify, consume, consume_line, consume_tagged, flush, new_parser,
}
use network_manager_vpn_plug.Dialog.Protocol.Input.{IsLine, read_vpn_details-unlines, unlines}
use network_manager_vpn_plug.Dialog.Protocol.Reading.{byte_length, read_vpn_details, trim_return}
use network_manager_vpn_plug.Dialog.Run.{Machine, failed, run, run_browser_test}
use network_manager_vpn_plug.Dialog.Run.Browser.{
  IsGiven, IsWebAddress, Requested, Tested, browser_address, browser_needs,
}
use network_manager_vpn_plug.Dialog.Args.{Arguments, parse_args}
use network_manager_vpn_plug.Dialog.Response.{
  open_sso_browser, validate_sso_browser_uri, write_external_sso, write_response,
  write_sso_response,
}
use network_manager_vpn_plug.Go.Maps.{insert, lookup}
use network_manager_vpn_plug.Settings.Normal.{is_key_rune, is_truthy, normalize_setting_key}
use network_manager_vpn_plug.Dialog.Hints.{hint_value, parse_hints, sso_requested}
use network_manager_vpn_plug.Status.Words.{ascii_only}
use network_manager_vpn_plug.Dialog.Protocol.RoundTrip.{Item, all_lines, all_stored}

abbrev user : Item
user = record {
  secret = false;
  key = codes "user";
  key_rest = [];
  value = codes "ann";
  value_rest = codes "=x" ∷ [];
}

abbrev key : Item
key = record {
  secret = true;
  key = codes "setup-key";
  key_rest = [];
  value = codes "é";
  value_rest = [];
}

lines-IsLine : All IsLine (all_lines (user ∷ key ∷ []) (codes "DONE" ∷ []))
unfolding mem_text trim_return byte_length
lines-IsLine =
    ((
      record { no_newline = refl; no_nul = refl; no_return = refl; short = omega arith },
      (
        record { no_newline = refl; no_nul = refl; no_return = refl; short = omega arith },
        (
          record { no_newline = refl; no_nul = refl; no_return = refl; short = omega arith },
          (
            record { no_newline = refl; no_nul = refl; no_return = refl; short = omega arith },
            (
              record { no_newline = refl; no_nul = refl; no_return = refl; short = omega arith },
              (
                record { no_newline = refl; no_nul = refl; no_return = refl; short = omega arith },
                tt,
              ),
            ),
          ),
        ),
      ),
    ))

read_vpn_details-unlines_example :
    read_vpn_details (unlines (all_lines (user ∷ key ∷ []) (codes "DONE" ∷ [])) (codes "ignored"))
    ≡ ok (all_stored (user ∷ key ∷ []) new_parser.details)
read_vpn_details-unlines_example =
    read_vpn_details-unlines user (key ∷ []) (codes "ignored") lines-IsLine (omega arith)

abbrev machine : Machine
machine = record {
  getenv = λ name. [];
  has_bus = λ directory. false;
  parse_url = λ url. none;
  parse_duration = λ text. none;
  tables = ascii_only;
  open_browser = λ url timeout. failed;
}

abbrev arguments : List Text
arguments =
    codes "-u"
    ∷ codes "7f"
    ∷ codes "--name=work"
    ∷ codes "-s"
    ∷ codes "org.freedesktop.NetworkManager.netbird"
    ∷ codes "-i"
    ∷ []

-- A machine with a desktop.
abbrev online : Machine
online = record machine {
  getenv = λ name. if text_eq name (codes "DISPLAY") then codes ":0" else [];
  parse_url = λ url. some (codes "HTTPS", codes "login.example.org");
}

-- The test of the browser, where no desktop is there.
abbrev forced_test : List Text
forced_test = codes "--test-browser= HTTPS://login.example.org" ∷ codes "--test-browser-force" ∷ []

abbrev offline : Machine
offline = record machine { parse_url = λ url. some (codes "HTTPS", codes "login.example.org") }

abbrev login : Text
login = codes "HTTPS://login.example.org"

browser_needs_example :
    (o : Arguments) × (parse_args offline.parse_duration forced_test ≡ ok o)
    × (Tested offline o ⊎ Requested offline o)
unfolding run parse_args run_browser_test validate_sso_browser_uri trim_space to_lower text_eq
browser_needs_example = browser_needs offline forced_test [] login refl

-- A login by a graphical frontend.
abbrev login_arguments : List Text
login_arguments =
    codes "--external-ui-mode"
    ∷ codes "--hint=x-netbird-sso-verification-uri=HTTPS://login.example.org"
    ∷ arguments

browser_address_example :
    IsWebAddress online login
    × ((o : Arguments) × (parse_args online.parse_duration login_arguments ≡ ok o)
        × IsGiven online o login)
unfolding run parse_args validate_sso_browser_uri trim_space to_lower text_eq write_response
    sso_requested is_truthy hint_value lookup parse_hints cut insert is_key_rune
    normalize_setting_key write_sso_response write_external_sso open_sso_browser read_vpn_details
    consume flush consume_line consume_tagged classify cut_prefix
browser_address_example =
    browser_address online login_arguments (codes "DATA_KEY=user\nDATA_VAL=ann\nDONE\n") login refl
