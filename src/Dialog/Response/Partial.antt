-- ===== src/Dialog/Response/Partial.antt =====
-- internal/nmauthdialog/dialog.go: what is on stdout when `writeResponse` fails.
use network_manager_vpn_plug.Prelude.{
  Bool, true, false, [], ◌∷◌, ◌≡◌, ◌⊎◌, inl, inr, refl, subst, arith, Text, codes, is_empty,
  is_some, Bool-cases, sym, ap, ◌∙◌,
}
use network_manager_vpn_plug.Go.Unicode.{Tables}
use network_manager_vpn_plug.Settings.Parse.{activation_id_key}
use network_manager_vpn_plug.Dialog.Hints.{HintValues, hint_value, parse_hints, sso_requested}
use network_manager_vpn_plug.Dialog.Keyfile.{StandardSecret, has_line_break, write_standard_secrets}
use network_manager_vpn_plug.Dialog.Protocol.{VpnDetails}
use network_manager_vpn_plug.Dialog.Response.{
  Answer, Desktop, Options, append_hint_value, plain, setup_key_requirement, write_no_secret,
  write_external_sso, write_response, write_setup_key, refused, sso_needs_interaction,
  write_sso_response, write_standard_sso,
}

-- The lines that tell NetworkManager to go on with an SSO login.
abbrev pub continue_marker : Text
continue_marker = codes "x-netbird-sso-continue\ntrue\n"

abbrev marker : StandardSecret
marker = record { key = codes "x-netbird-sso-continue"; value = codes "true" }

abbrev secret_id : Text → StandardSecret
secret_id value = record { key = activation_id_key; value = value }

no_error : {A : Type 0} (a : Answer) → is_some a.error ≡ false → is_some a.error ≡ true → A
no_error a e h = absurd (cc)

module _ (tables : Tables) (desktop : Desktop) where
  -- Nothing is written, or the marker is, by the plain answer to an SSO login.
  abbrev pub CutShort : Options → Answer → Type 0
  CutShort opts a =
      (a.output ≡ [])
      ⊎ ((a.output ≡ continue_marker)
          × (opts.external_ui_mode ≡ false)
          × (opts.allow_interaction ≡ true)
          × (sso_requested tables (parse_hints tables opts.hints) ≡ true))

  no_secret_succeeds : (external : Bool) → is_some (write_no_secret external).error ≡ false
  unfolding write_no_secret write_standard_secrets has_line_break
  no_secret_succeeds true = refl
  no_secret_succeeds false = refl

  setup_key_leaves :
      (opts : Options) (hints : HintValues) (key : Text)
      → is_some (write_setup_key tables desktop opts hints key).error ≡ true
      → (write_setup_key tables desktop opts hints key).output ≡ []
  unfolding write_setup_key write_standard_secrets
  setup_key_leaves opts hints key h = ground arith

  broken_id :
      (value : Text)
      → has_line_break value ≡ true
      → write_standard_secrets (marker ∷ secret_id value ∷ []) ≡ (continue_marker, false)
  unfolding write_standard_secrets has_line_break
  broken_id value e = simp e refl

  whole_id :
      (value : Text)
      → has_line_break value ≡ false
      → (write_standard_secrets (marker ∷ secret_id value ∷ [])).1 ≡ true
  unfolding write_standard_secrets has_line_break
  whole_id value e = simp e refl

  whole_plain : (p : Text × Bool) → p.1 ≡ true → is_some (plain p).error ≡ false
  whole_plain (output, true) h = refl
  whole_plain (output, false) h = absurd (cc)

  -- The marker, and the id of the activation behind it.
  with_id_leaves :
      (value : Text)
      → is_some (plain (write_standard_secrets (marker ∷ secret_id value ∷ []))).error ≡ true
      → (plain (write_standard_secrets (marker ∷ secret_id value ∷ []))).output ≡ continue_marker
  with_id_leaves value h = elim (Bool-cases (has_line_break value)) [
    | inl e ↦ ap (λ p. (plain p).output) (broken_id value e)
    | inr e ↦
        no_error (plain (write_standard_secrets (marker ∷ secret_id value ∷ [])))
          (whole_plain _ (whole_id value e)) h
  ]

  marker_alone :
      (hints : HintValues)
      → is_empty (hint_value tables hints activation_id_key) ≡ true
      → write_standard_sso tables desktop hints ≡ plain (write_standard_secrets (marker ∷ []))
  unfolding write_standard_sso append_hint_value
  marker_alone hints e = simp e refl

  marker_with_id :
      (hints : HintValues)
      → is_empty (hint_value tables hints activation_id_key) ≡ false
      → write_standard_sso tables desktop hints
        ≡ plain (
            write_standard_secrets
              (marker ∷ secret_id (hint_value tables hints activation_id_key) ∷ []))
  unfolding write_standard_sso append_hint_value
  marker_with_id hints e = simp e refl

  alone_complete : is_some (plain (write_standard_secrets (marker ∷ []))).error ≡ false
  unfolding write_standard_secrets has_line_break
  alone_complete = refl

  standard_sso_leaves :
      (hints : HintValues)
      → is_some (write_standard_sso tables desktop hints).error ≡ true
      → (write_standard_sso tables desktop hints).output ≡ continue_marker
  standard_sso_leaves hints h =
      elim (Bool-cases (is_empty (hint_value tables hints activation_id_key))) [
        | inl e ↦
            no_error (plain (write_standard_secrets (marker ∷ []))) alone_complete
              (ap (λ a. is_some a.error) (sym (marker_alone hints e)) ∙ h)
        | inr e ↦
            let same = marker_with_id hints e in
            ap (λ a. a.output) same
            ∙ with_id_leaves (hint_value tables hints activation_id_key)
                (sym (ap (λ a. is_some a.error) same) ∙ h)
      ]

  -- An error leaves at most the marker.
  abbrev Cut : Options → Answer → Type 0
  Cut opts a = is_some a.error ≡ true → CutShort opts a

  write_sso_response-Cut :
      (opts : Options)
      → sso_requested tables (parse_hints tables opts.hints) ≡ true
      → Cut opts (write_sso_response tables desktop opts (parse_hints tables opts.hints))
  unfolding write_sso_response write_external_sso
  write_sso_response-Cut opts asked =
      let hints = parse_hints tables opts.hints in
      elim (Bool-cases opts.allow_interaction) [
        | inr e ↦
            let same : write_sso_response tables desktop opts hints
                ≡ refused sso_needs_interaction =
              simp e refl in
            subst (Cut opts) (sym same) (λ h. inl refl)
        | inl e ↦ elim (Bool-cases opts.external_ui_mode) [
          | inl f ↦
              let same : write_sso_response tables desktop opts hints
                  ≡ write_external_sso tables desktop hints =
                simp (e, f) refl in
              subst (Cut opts) (sym same)
                (λ h. no_error (write_external_sso tables desktop hints) refl h)
          | inr f ↦
              let same : write_sso_response tables desktop opts hints
                  ≡ write_standard_sso tables desktop hints =
                simp (e, f) refl in
              subst (Cut opts) (sym same) (λ h. inr (standard_sso_leaves hints h, f, e, asked))
        ]
      ]

  -- An error of `writeResponse` leaves at most the marker.
  pub write_response-CutShort :
      (opts : Options) (details : VpnDetails)
      → is_some (write_response tables desktop opts details).error ≡ true
      → CutShort opts (write_response tables desktop opts details)
  unfolding write_response
  write_response-CutShort opts details =
      let hints = parse_hints tables opts.hints in
      let required = setup_key_requirement tables hints details in
      elim (Bool-cases (sso_requested tables hints)) [
        | inl e ↦
            let same : write_response tables desktop opts details
                ≡ write_sso_response tables desktop opts hints =
              simp e refl in
            subst (Cut opts) (sym same) (write_sso_response-Cut opts e)
        | inr e ↦ elim (Bool-cases required.0) [
          | inl f ↦
              let same : write_response tables desktop opts details
                  ≡ write_setup_key tables desktop opts hints required.1 =
                simp (e, f) refl in
              subst (Cut opts) (sym same) (λ h. inl (setup_key_leaves opts hints required.1 h))
          | inr f ↦
              let same : write_response tables desktop opts details
                  ≡ write_no_secret opts.external_ui_mode =
                simp (e, f) refl in
              subst (Cut opts) (sym same) (λ h.
                no_error (write_no_secret opts.external_ui_mode)
                  (no_secret_succeeds opts.external_ui_mode) h)
        ]
      ]
