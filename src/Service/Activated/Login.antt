-- ===== src/Service/Activated/Login.antt =====
-- internal/nmplugin/service.go, `runActivation` and `authenticate`: an activation up to the end of its
-- login.
use network_manager_vpn_plug.Prelude.{
  ℕ, Bool, true, false, not, ◌&&◌, List, [], ◌∷◌, ◌++◌, some, inl, inr, ◌≡◌, ◌==◌, ◌∙◌, refl, ap,
  arith, Bool-cases, codes, text_eq,
}
use network_manager_vpn_plug.Go.Unicode.{Tables}
use network_manager_vpn_plug.Daemon.Messages.{LoginResponse}
use network_manager_vpn_plug.Settings.Parse.{
  ActivationSettings, is_auth_mode_valid, merge_details, needs_setup_key_secret,
  parse_activation_settings, should_login,
}
use network_manager_vpn_plug.Service.Exec.{exec}
use network_manager_vpn_plug.Service.Locked.{register_activation_prompt}
use network_manager_vpn_plug.Service.Monitor.{alone}
use network_manager_vpn_plug.Service.Phases.{
  after_login, ask_sso, check_settings, go_on, say, start_authentication,
}
use network_manager_vpn_plug.Service.Program.{
  ActivationAttempt, Reply, proceed, login_is, Op, authenticate, begin, login, emit, new_client,
  sso_prompt, update, wait_sso,
}
use network_manager_vpn_plug.Service.Prompts.{
  format_sso_login_banner, sso_prompt_hints, sso_required_message,
}
use network_manager_vpn_plug.Service.State.{World, Message, login_banner, secrets_required, sso}

-- One step of a thread alone, and one that leaves a single operation.
pub alone_go :
    (tables : Tables) (op : Op) (ops next : List Op) (r : Reply) (rs : List Reply) (w v : World)
    → exec tables op r w ≡ go_on next v
    → alone tables (op ∷ ops) (r ∷ rs) w ≡ alone tables (next ++ ops) rs v
unfolding alone
alone_go tables op ops next r rs w v e = ap (λ o. alone tables (o.next ++ ops) rs o.world) e

-- What an activation that has its slot does not change up to its completion.
pub record Alike (w v : World) : Type 0 where
  pub activating : v.activating ≡ w.activating
  pub cancelled : v.cancelled ≡ w.cancelled
  pub closed : v.closed ≡ w.closed
  pub session_id : v.session_id ≡ w.session_id

pub Alike-refl : (w : World) → Alike w w
Alike-refl w = record { activating = refl; cancelled = refl; closed = refl; session_id = refl }

-- What the thread is told of a login: the answer, and for an SSO login also that the banner is sent,
-- the prompt is registered and sent, and the wait is over.
abbrev pub sso_replies : Bool → List Reply → List Reply
sso_replies false rest = rest
sso_replies true rest = proceed ∷ proceed ∷ proceed ∷ proceed ∷ rest

module _ (tables : Tables) (a : ActivationAttempt) where
  -- The settings of the attempt.
  abbrev pub settings_of : ActivationSettings
  settings_of = merge_details tables (parse_activation_settings tables a.connection) a.details

  -- The settings can be used: the mode is known, an SSO login can be asked for, and there is a key
  -- where one is needed.
  pub record IsUsable (s : ActivationSettings) : Type 0 where
    pub valid : is_auth_mode_valid s ≡ true
    pub interactive : text_eq s.auth_mode (codes "sso") && not a.interactive ≡ false
    pub has_key : needs_setup_key_secret s ≡ false

  usable-should_login : (s : ActivationSettings) → IsUsable s → should_login s a.interactive ≡ true
  unfolding is_auth_mode_valid should_login
  usable-should_login s u = let v = u.valid in let i = u.interactive in ground arith

  pub begin_step :
      (w : World) (r : Reply)
      → IsUsable settings_of
      → exec tables (begin a) r w ≡ go_on (new_client a settings_of ∷ []) w
  unfolding exec check_settings
  begin_step w r u = rw (u.valid, u.interactive)

  pub authenticate_step :
      (s : ActivationSettings) (client : ℕ) (w : World)
      → IsUsable s
      → exec tables (authenticate a s client) proceed w ≡ go_on (login a s client ∷ []) w
  unfolding exec start_authentication
  authenticate_step s client w u = rw (usable-should_login s u, u.has_key)

  plain_login_step :
      (s : ActivationSettings) (client : ℕ) (response : LoginResponse) (w : World)
      → response.needs_sso_login ≡ false
      → exec tables (login a s client) (login_is response) w ≡ go_on (update a s client ∷ []) w
  unfolding exec after_login
  plain_login_step s client response w e = rw e refl

  sso_login_step :
      (s : ActivationSettings) (client : ℕ) (response : LoginResponse) (w : World)
      → response.needs_sso_login ≡ true
      → a.interactive ≡ true
      → exec tables (login a s client) (login_is response) w
        ≡ go_on
            (emit (login_banner (format_sso_login_banner response))
              ∷ sso_prompt a response
              ∷ wait_sso a s client
              ∷ [])
            w
  unfolding exec after_login
  sso_login_step s client response w e i = rw (e, i) refl

  -- The service with the prompt of the attempt.
  abbrev with_sso_prompt : World → World
  with_sso_prompt w = record w {
    prompt = some (record { activation_id = a.id; kind = sso; channel = 0 });
  }

  sso_prompt_step :
      (response : LoginResponse) (w : World)
      → w.activating ≡ true
      → (a.id == w.activation_id) ≡ true
      → exec tables (sso_prompt a response) proceed w
        ≡ go_on
            (emit (secrets_required sso_required_message (sso_prompt_hints a.id response)) ∷ [])
            (with_sso_prompt w)
  unfolding exec ask_sso register_activation_prompt
  sso_prompt_step response w on same = rw (on, same) refl

  emit_message_step :
      (m : Message) (w : World) → exec tables (emit m) proceed w ≡ go_on [] (say m w)
  unfolding exec
  emit_message_step m w = refl

  wait_sso_step :
      (s : ActivationSettings) (client : ℕ) (w : World)
      → exec tables (wait_sso a s client) proceed w ≡ go_on (update a s client ∷ []) w
  unfolding exec
  wait_sso_step s client w = refl

  -- The login of an activation ends where its settings are sent, with or without an SSO login.
  pub login_alone :
      (s : ActivationSettings) (client : ℕ) (response : LoginResponse) (rest : List Reply)
      (w : World)
      → w.activating ≡ true
      → (a.id == w.activation_id) ≡ true
      → (response.needs_sso_login ≡ true → a.interactive ≡ true)
      → (v : World) × Alike w v
        × (alone tables
              (login a s client ∷ [])
              (login_is response ∷ sso_replies response.needs_sso_login rest)
              w
            ≡ alone tables (update a s client ∷ []) rest v)
  login_alone s client response rest w on same interactive =
      elim (Bool-cases response.needs_sso_login) [
        | inr e ↦ simp e (
          w,
          Alike-refl w,
          alone_go tables (login a s client) [] _ (login_is response) rest w w
              (plain_login_step s client response w e),
        )
        | inl e ↦
            let banner = login_banner (format_sso_login_banner response) in
            let asked = secrets_required sso_required_message (sso_prompt_hints a.id response) in
            let u = with_sso_prompt (say banner w) in
            let waiting = wait_sso a s client ∷ [] in
            simp e (
              say asked u,
              ground arith,
              alone_go tables (login a s client) [] _ (login_is response) _ w w
                    (sso_login_step s client response w e (interactive e))
                  ∙ alone_go tables (emit banner) (sso_prompt a response ∷ waiting) [] proceed _ w _
                      (emit_message_step banner w)
                  ∙ alone_go tables (sso_prompt a response) waiting _ proceed _ (say banner w) u
                      (sso_prompt_step response (say banner w) on same)
                  ∙ alone_go tables (emit asked) waiting [] proceed _ u _
                      (emit_message_step asked u)
                  ∙ alone_go tables (wait_sso a s client) [] _ proceed rest (say asked u) _
                      (wait_sso_step s client (say asked u)),
            )
      ]
