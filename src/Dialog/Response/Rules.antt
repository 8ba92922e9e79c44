-- ===== src/Dialog/Response/Rules.antt =====
-- internal/nmauthdialog/dialog.go: when the helper asks, refuses and opens a browser.
use network_manager_vpn_plug.Prelude.{
  ℕ, Bool, true, false, ◌||◌, [], ◌∷◌, Option, none, some, if◌then◌else◌, ◌≡◌, ◌≢◌, ◌⊎◌, inl, inr,
  refl, arith, Text, codes, text_eq, text_eq_iff, is_empty, Bool-cases,
}
use network_manager_vpn_plug.Go.Strings.{trim_space, to_lower}
use network_manager_vpn_plug.Go.Trim.{trim_space-trim_space}
use network_manager_vpn_plug.Go.Unicode.{Tables}
use network_manager_vpn_plug.Dialog.Hints.{HintValues, hint_value, parse_hints, sso_requested}
use network_manager_vpn_plug.Dialog.Protocol.{VpnDetails}
use network_manager_vpn_plug.Dialog.Response.{
  Options, Desktop, first_non_empty, plain, web_address, write_no_secret, setup_key_requirement,
  validate_sso_browser_uri, open_sso_browser, write_external_sso, write_standard_sso,
  write_sso_response, write_setup_key, write_response,
}

cons_empty : {c : ℕ} {s : Text} → c ∷ s ≢ []
cons_empty q = ground arith

no_text : (uri : Text) (o : Option Text) → o ≡ none → o ≢ some uri
no_text uri none h = ground arith
no_text uri (some t) h = ground arith

pub first_non_empty-trim :
    (s t : Text)
    → (trim_space (first_non_empty s t) ≡ trim_space s)
      ⊎ (trim_space (first_non_empty s t) ≡ trim_space t)
first_non_empty-trim s t = elim (Bool-cases (is_empty (trim_space s))) [
  | inl e ↦ inr (simp (e, trim_space-trim_space t) refl)
  | inr e ↦ inl (simp (e, trim_space-trim_space s) refl)
]

module _ (tables : Tables) (desktop : Desktop) where
  is_web : Text → Bool
  is_web scheme =
      text_eq (to_lower tables scheme) (codes "http")
      || text_eq (to_lower tables scheme) (codes "https")

  is_web_sound :
      (scheme : Text)
      → is_web scheme ≡ true
      → (to_lower tables scheme ≡ codes "http") ⊎ (to_lower tables scheme ≡ codes "https")
  unfolding is_web
  is_web_sound scheme h = elim (Bool-cases (text_eq (to_lower tables scheme) (codes "http"))) [
    | inl e ↦ inl ((text_eq_iff _ _).0 e)
    | inr e ↦ inr ((text_eq_iff _ _).0 (ground arith))
  ]

  web_address_sound :
      (trimmed uri : Text) (o : Option (Text × Text))
      → web_address tables desktop trimmed o ≡ some uri
      → (uri ≡ trimmed)
        × ((scheme : Text) × (host : Text) × (o ≡ some (scheme, host))
            × (host ≢ [])
            × ((to_lower tables scheme ≡ codes "http") ⊎ (to_lower tables scheme ≡ codes "https")))
  unfolding is_web
  web_address_sound trimmed uri none h = absurd (no_text uri none refl h)
  web_address_sound trimmed uri (some (scheme, [])) h = absurd (no_text uri none refl h)
  web_address_sound trimmed uri (some (scheme, c ∷ s)) h = elim (Bool-cases (is_web scheme)) [
    | inl e ↦ (ground arith, (scheme, c ∷ s, refl, (λ q. cons_empty q), is_web_sound scheme e))
    | inr e ↦ ground arith
  ]

  -- The check accepts an address only trimmed, if `url.Parse` splits it with a host that is not empty,
  -- and its scheme is http or https.
  pub validate_sound :
      (raw uri : Text)
      → validate_sso_browser_uri tables desktop raw ≡ some uri
      → (uri ≡ trim_space raw)
        × ((scheme : Text) × (host : Text) × (desktop.parse_url (trim_space raw)
              ≡ some (scheme, host))
            × (host ≢ [])
            × ((to_lower tables scheme ≡ codes "http") ⊎ (to_lower tables scheme ≡ codes "https")))
  unfolding validate_sso_browser_uri
  validate_sound raw uri h = elim (Bool-cases (is_empty (trim_space raw))) [
    | inl e ↦ ground arith
    | inr e ↦
        web_address_sound (trim_space raw) uri (desktop.parse_url (trim_space raw)) (ground arith)
  ]

  plain_opens : (p : Text × Bool) → (plain p).opened ≡ none
  plain_opens (output, true) = refl
  plain_opens (output, false) = refl

  no_secret_opens : (external : Bool) → (write_no_secret external).opened ≡ none
  unfolding write_no_secret
  no_secret_opens true = refl
  no_secret_opens false = plain_opens _

  setup_key_opens :
      (opts : Options) (hints : HintValues) (key : Text)
      → (write_setup_key tables desktop opts hints key).opened ≡ none
  unfolding write_setup_key
  setup_key_opens opts hints key = ground arith

  sso_opens :
      (opts : Options) (hints : HintValues) (uri : Text)
      → (write_sso_response tables desktop opts hints).opened ≡ some uri
      → (opts.allow_interaction ≡ true)
        × (opts.external_ui_mode ≡ true)
        × (open_sso_browser tables desktop hints ≡ some uri)
  unfolding write_sso_response write_external_sso write_standard_sso
  sso_opens opts hints uri h = ground arith

  browser_needs_desktop :
      (hints : HintValues) (uri : Text)
      → open_sso_browser tables desktop hints ≡ some uri
      → desktop.has_desktop ≡ true
  unfolding open_sso_browser
  browser_needs_desktop hints uri h = ground arith

  only_sso_opens :
      (opts : Options) (details : VpnDetails)
      → (write_response tables desktop opts details).opened ≡ (
          if sso_requested tables (parse_hints tables opts.hints)
          then (write_sso_response tables desktop opts (parse_hints tables opts.hints)).opened
          else none)
  unfolding write_response
  only_sso_opens opts details =
      let hints = parse_hints tables opts.hints in
      ground (
        arith,
        no_secret_opens opts.external_ui_mode,
        setup_key_opens opts hints (setup_key_requirement tables hints details).1,
      )

  -- An answer opens a browser only if the user may be asked, the frontend is graphical, SSO is
  -- requested and a desktop is there.
  pub opened_needs :
      (opts : Options) (details : VpnDetails) (uri : Text)
      → (write_response tables desktop opts details).opened ≡ some uri
      → (opts.allow_interaction ≡ true)
        × (opts.external_ui_mode ≡ true)
        × (sso_requested tables (parse_hints tables opts.hints) ≡ true)
        × (desktop.has_desktop ≡ true)
  opened_needs opts details uri h =
      let hints = parse_hints tables opts.hints in
      let asked : sso_requested tables hints ≡ true = ground (arith, only_sso_opens opts details) in
      let sso = sso_opens opts hints uri (ground (arith, only_sso_opens opts details)) in
      (sso.0, sso.1, asked, browser_needs_desktop hints uri sso.2)

  browser_valid :
      (hints : HintValues) (uri : Text)
      → open_sso_browser tables desktop hints ≡ some uri
      → validate_sso_browser_uri tables desktop (
          first_non_empty
            (hint_value tables hints (codes "x-netbird-sso-verification-uri-complete"))
            (hint_value tables hints (codes "x-netbird-sso-verification-uri")))
        ≡ some uri
  unfolding open_sso_browser
  browser_valid hints uri h = ground arith

  -- The address that an answer opens has passed the check.
  pub opened_valid :
      (opts : Options) (details : VpnDetails) (uri : Text)
      → (write_response tables desktop opts details).opened ≡ some uri
      → validate_sso_browser_uri tables desktop (
          first_non_empty
            (hint_value tables
              (parse_hints tables opts.hints)
              (codes "x-netbird-sso-verification-uri-complete"))
            (hint_value tables
              (parse_hints tables opts.hints)
              (codes "x-netbird-sso-verification-uri")))
        ≡ some uri
  opened_valid opts details uri h =
      let hints = parse_hints tables opts.hints in
      let asked : sso_requested tables hints ≡ true = ground (arith, only_sso_opens opts details) in
      browser_valid hints uri
        (sso_opens opts hints uri (ground (arith, only_sso_opens opts details))).2
