-- ===== src/Dialog/Run/Browser.antt =====
-- internal/nmauthdialog/dialog.go, `Run`: when a browser is opened, and on which address.
use network_manager_vpn_plug.Prelude.{
  true, false, List, [], Option, none, some, ◌≡◌, ◌≢◌, ◌⊎◌, inl, inr, refl, sym, ap, ◌∙◌, arith,
  Text, codes, is_empty, Result, Result-cases, ok, err, Bool-cases,
}
use network_manager_vpn_plug.Go.Strings.{to_lower, trim_space}
use network_manager_vpn_plug.Grpc.Dial.{is_positive}
use network_manager_vpn_plug.Dialog.Args.{Arguments, parse_args}
use network_manager_vpn_plug.Dialog.Hints.{hint_value, parse_hints, sso_requested}
use network_manager_vpn_plug.Dialog.Protocol.{ProtocolError, VpnDetails}
use network_manager_vpn_plug.Dialog.Protocol.Reading.{read_vpn_details}
use network_manager_vpn_plug.Dialog.Response.{
  first_non_empty, validate_sso_browser_uri, write_response,
}
use network_manager_vpn_plug.Dialog.Response.Rules.{
  first_non_empty-trim, opened_needs, opened_valid, validate_sound,
}
use network_manager_vpn_plug.Dialog.Run.{
  BrowserEnd, Machine, Outcome, args_failed, failed_with, after_browser, browser_test_at, desktop,
  has_desktop_open_environment, response_options, run, run_browser_test, with_details,
}

no_uri : {uri : Text} → none ≢ some uri
no_uri q = ground arith

opens_same :
    {r s : Outcome} {uri : Text} → r ≡ s → r.opened_uri ≡ some uri → s.opened_uri ≡ some uri
opens_same same h = sym (ap (λ r. r.opened_uri) same) ∙ h

map_either : {A B C D : Type 0} → (A → C) → (B → D) → A ⊎ B → C ⊎ D
map_either f g (inl a) = inl (f a)
map_either f g (inr b) = inr (g b)

module _ (machine : Machine) where
  -- The test of the browser was asked for, with a positive timeout, and it was forced or a desktop is
  -- there.
  abbrev pub Tested : Arguments → Type 0
  Tested o =
      (is_empty (trim_space o.test_browser_url) ≡ false)
      × (is_positive o.test_browser_timeout ≡ true)
      × ((o.test_browser_force ≡ true) ⊎ (has_desktop_open_environment machine ≡ true))

  -- SSO was asked for by a graphical frontend that may ask the user, and a desktop is there.
  abbrev pub Requested : Arguments → Type 0
  Requested o =
      (is_empty (trim_space o.test_browser_url) ≡ true)
      × (o.allow_interaction ≡ true)
      × (o.external_ui_mode ≡ true)
      × (sso_requested machine.tables (parse_hints machine.tables o.hints) ≡ true)
      × (has_desktop_open_environment machine ≡ true)

  -- An address of the web: trimmed, with a host, and of the scheme http or https.
  abbrev pub IsWebAddress : Text → Type 0
  IsWebAddress uri =
      (scheme : Text) × (host : Text) × (machine.parse_url uri ≡ some (scheme, host))
      × (host ≢ [])
      × ((to_lower machine.tables scheme ≡ codes "http")
          ⊎ (to_lower machine.tables scheme ≡ codes "https"))

  abbrev pub complete_address : Arguments → Text
  complete_address o =
      hint_value machine.tables (parse_hints machine.tables o.hints)
        (codes "x-netbird-sso-verification-uri-complete")

  abbrev pub plain_address : Arguments → Text
  plain_address o =
      hint_value machine.tables (parse_hints machine.tables o.hints)
        (codes "x-netbird-sso-verification-uri")

  -- The address of the test or of one of the two hints, trimmed.
  abbrev pub IsGiven : Arguments → Text → Type 0
  IsGiven o uri =
      (uri ≡ trim_space o.test_browser_url)
      ⊎ ((uri ≡ trim_space (complete_address o)) ⊎ (uri ≡ trim_space (plain_address o)))

  abbrev tested_address : Arguments → Option Text
  tested_address o = validate_sso_browser_uri machine.tables (desktop machine) o.test_browser_url

  after_browser_opens :
      (uri u : Text) (e : BrowserEnd)
      → (after_browser machine u e).opened_uri ≡ some uri
      → some u ≡ some uri
  after_browser_opens uri u BrowserEnd.opened h = h
  after_browser_opens uri u BrowserEnd.failed h = h
  after_browser_opens uri u BrowserEnd.timed_out h = h
  after_browser_opens uri u BrowserEnd.start_failed h = absurd (no_uri h)

  test_needs :
      (o : Arguments) (uri : Text) (checked : Option Text)
      → (browser_test_at machine o checked).opened_uri ≡ some uri
      → (is_positive o.test_browser_timeout ≡ true)
        × ((o.test_browser_force ≡ true) ⊎ (has_desktop_open_environment machine ≡ true))
        × (checked ≡ some uri)
  test_needs o uri none h = absurd (no_uri h)
  test_needs o uri (some u) h =
      ground (arith, after_browser_opens uri u (machine.open_browser u o.test_browser_timeout))

  -- The run that opens the address: it is the test of the browser, or the answer to details.
  abbrev Way : Arguments → Text → Type 0
  Way o uri =
      (((is_empty (trim_space o.test_browser_url) ≡ false)
          × ((run_browser_test machine o).opened_uri ≡ some uri))
        ⊎ ((is_empty (trim_space o.test_browser_url) ≡ true)
            × ((details : VpnDetails) × ((write_response machine.tables (desktop machine)
                    (response_options o) details).opened
                  ≡ some uri))))

  abbrev Opening : List Text → Text → Type 0
  Opening args uri = (o : Arguments) × (parse_args machine.parse_duration args ≡ ok o) × Way o uri

  details_opening :
      (o : Arguments) (uri : Text) (x : Result ProtocolError VpnDetails)
      → (with_details machine o x).opened_uri ≡ some uri
      → (details : VpnDetails) × ((write_response machine.tables
            (desktop machine)
            (response_options o)
            details).opened
          ≡ some uri)
  details_opening o uri (err e) h = absurd (no_uri h)
  details_opening o uri (ok d) h = (d, h)

  ways_need : (o : Arguments) (uri : Text) → Way o uri → Tested o ⊎ Requested o
  unfolding run_browser_test
  ways_need o uri (inl (t, h)) =
      let (positive, there, valid) = test_needs o uri (tested_address o) h in
      inl (t, positive, there)
  ways_need o uri (inr (t, (d, h))) =
      let (allowed, graphical, asked, there) =
        opened_needs machine.tables (desktop machine) (response_options o) d uri h in
      inr (t, allowed, graphical, asked, there)

  -- What is validated, and that it is given.
  ways_valid :
      (o : Arguments) (uri : Text)
      → Way o uri
      → (raw : Text) × (validate_sso_browser_uri machine.tables (desktop machine) raw ≡ some uri)
        × (uri ≡ trim_space raw → IsGiven o uri)
  unfolding run_browser_test
  ways_valid o uri (inl (t, h)) =
      let (positive, there, valid) = test_needs o uri (tested_address o) h in
      (o.test_browser_url, valid, λ q. inl q)
  ways_valid o uri (inr (t, (d, h))) = (
    first_non_empty (complete_address o) (plain_address o),
    opened_valid machine.tables (desktop machine) (response_options o) d uri h,
    λ q. inr (
        map_either (λ r. q ∙ r) (λ r. q ∙ r)
          (first_non_empty-trim (complete_address o) (plain_address o))),
  )

  run-Opening :
      (args : List Text) (stdin uri : Text)
      → (run machine args stdin).opened_uri ≡ some uri
      → Opening args uri
  unfolding run
  run-Opening args stdin uri h = elim (Result-cases (parse_args machine.parse_duration args)) [
    | inr (e, p) ↦
        let same : run machine args stdin ≡ failed_with (args_failed e) = simp p refl in
        absurd (no_uri (opens_same same h))
    | inl (o, p) ↦ elim (Bool-cases (is_empty (trim_space o.test_browser_url))) [
      | inr t ↦
          let same : run machine args stdin ≡ run_browser_test machine o = simp (p, t) refl in
          (o, p, inl (t, opens_same same h))
      | inl t ↦
          let same : run machine args stdin ≡ with_details machine o (read_vpn_details stdin) =
            simp (p, t) refl in
          (o, p, inr (t, details_opening o uri (read_vpn_details stdin) (opens_same same h)))
    ]
  ]

  -- `Run` opens a browser, whether the browser exits well or not, only if its arguments are accepted and
  -- either they ask for the test of the browser, with a positive timeout, and force it or a desktop is
  -- there; or they ask for no test, the frontend is graphical and may ask the user, SSO is requested
  -- by a hint and a desktop is there.
  pub browser_needs :
      (args : List Text) (stdin uri : Text)
      → (run machine args stdin).opened_uri ≡ some uri
      → (o : Arguments) × (parse_args machine.parse_duration args ≡ ok o) × (Tested o ⊎ Requested o)
  unfolding run_browser_test
  browser_needs args stdin uri h =
      let (o, p, way) = run-Opening args stdin uri h in (o, p, ways_need o uri way)

  -- The address that `Run` opens a browser on is an address of the web, and it is the trimmed one that
  -- the arguments give for the test, or in a hint for the login.
  pub browser_address :
      (args : List Text) (stdin uri : Text)
      → (run machine args stdin).opened_uri ≡ some uri
      → IsWebAddress uri
        × ((o : Arguments) × (parse_args machine.parse_duration args ≡ ok o) × IsGiven o uri)
  browser_address args stdin uri h =
      let (o, p, way) = run-Opening args stdin uri h in
      let (raw, valid, given) = ways_valid o uri way in
      let (trimmed, (scheme, host, parsed, there, web)) =
        validate_sound machine.tables (desktop machine) raw uri valid in
      ((scheme, host, ap machine.parse_url trimmed ∙ parsed, there, web), (o, p, given trimmed))
