-- ===== src/Service/Activated.antt =====
-- internal/nmplugin/service.go, `runActivation`: an activation whose calls succeed becomes a session.
pub mod Login
use network_manager_vpn_plug.Prelude.{
  ℕ, suc, Bool, true, false, not, ◌&&◌, List, [], ◌∷◌, ◌++◌, Option, some, inl, inr, ◌≡◌, ◌==◌, ◌∙◌,
  refl, ap, sym, subst, arith, All, Bool-cases, codes, text_eq,
}
use network_manager_vpn_plug.Go.Unicode.{Tables}
use network_manager_vpn_plug.Daemon.{ProfileRef}
use network_manager_vpn_plug.Daemon.Messages.{LoginResponse, StatusResponse}
use network_manager_vpn_plug.Settings.Parse.{
  ActivationSettings, is_auth_mode_valid, merge_details, needs_setup_key_secret,
  parse_activation_settings, should_login,
}
use network_manager_vpn_plug.Status.{map_status, ready}
use network_manager_vpn_plug.Service.Exec.{exec}
use network_manager_vpn_plug.Service.Locked.{register_activation_prompt}
use network_manager_vpn_plug.Service.Monitor.{alone}
use network_manager_vpn_plug.Service.Phases.{
  after_login, ask_sso, check_settings, go_on, say, start_authentication,
}
use network_manager_vpn_plug.Service.Program.{
  ActivationAttempt, Reply, proceed, profile_is, login_is, status_is, Op, authenticate, begin,
  login, emit, new_client, prepare, resolve, sso_prompt, up, update, wait_ready, wait_sso,
}
use network_manager_vpn_plug.Service.Prompts.{
  format_sso_login_banner, sso_prompt_hints, sso_required_message,
}
use network_manager_vpn_plug.Service.State.{
  World, Message, is_cancelled, member, next_u64, login_banner, secrets_required, sso,
}
use network_manager_vpn_plug.Service.Success.{Done, IsWaiting, polled, proceeds, wait_ready-Done}
use network_manager_vpn_plug.Service.Activated.Login.{
  Alike, IsUsable, alone_go, authenticate_step, begin_step, login_alone, settings_of, sso_replies,
}

module _ (tables : Tables) (a : ActivationAttempt) where
  -- The calls of the daemon succeed with these answers, and the engine gets ready at the last one.
  abbrev pub all_succeed :
      ProfileRef
      → LoginResponse
      → ProfileRef
      → List (Option StatusResponse)
      → Option StatusResponse
      → List Reply
  all_succeed prepared response resolved rs r =
      proceed
      ∷ proceed
      ∷ profile_is prepared
      ∷ proceed
      ∷ login_is response
      ∷ sso_replies response.needs_sso_login
          (proceed ∷ profile_is resolved ∷ proceed ∷ polled rs (status_is r ∷ proceeds))

  Done-Alike :
      (client : ℕ) (p : ProfileRef) (w v : World) (x : List Op × World)
      → Alike w v
      → Done tables a client p v x
      → Done tables a client p w x
  Done-Alike client p w v x k (over, st, s) = (
    over,
    st,
    record {
      client_set = s.client_set;
      profile = s.profile;
      slot_free = s.slot_free;
      not_closed = s.not_closed ∙ k.closed;
      session = s.session ∙ ap next_u64 k.session_id;
    },
  )

  new_client_step :
      (s : ActivationSettings) (w : World)
      → exec tables (new_client a s) proceed w
        ≡ go_on (prepare a s w.next_client ∷ []) (record w { next_client = suc w.next_client })
  unfolding exec
  new_client_step s w = refl

  prepare_step :
      (s : ActivationSettings) (client : ℕ) (p : ProfileRef) (w : World)
      → exec tables (prepare a s client) (profile_is p) w
        ≡ go_on (authenticate a (record s { profile = p }) client ∷ []) w
  unfolding exec
  prepare_step s client p w = refl

  update_step :
      (s : ActivationSettings) (client : ℕ) (w : World)
      → exec tables (update a s client) proceed w ≡ go_on (resolve a s client ∷ []) w
  unfolding exec
  update_step s client w = refl

  resolve_step :
      (s : ActivationSettings) (client : ℕ) (p : ProfileRef) (w : World)
      → exec tables (resolve a s client) (profile_is p) w ≡ go_on (up a client p ∷ []) w
  unfolding exec
  resolve_step s client p w = refl

  up_step :
      (client : ℕ) (p : ProfileRef) (w : World)
      → exec tables (up a client p) proceed w ≡ go_on (wait_ready a client p ∷ []) w
  unfolding exec
  up_step client p w = refl

  prepared-IsUsable :
      (s : ActivationSettings) (p : ProfileRef)
      → IsUsable tables a s
      → IsUsable tables a (record s { profile = p })
  unfolding is_auth_mode_valid needs_setup_key_secret
  prepared-IsUsable s p u = record {
    valid = u.valid;
    interactive = u.interactive;
    has_key = u.has_key;
  }

  -- From the login on.
  logged_in_alone :
      (s : ActivationSettings) (client : ℕ) (resolved : ProfileRef) (rest : List Reply) (v : World)
      → alone tables (update a s client ∷ []) (proceed ∷ profile_is resolved ∷ proceed ∷ rest) v
        ≡ alone tables (wait_ready a client resolved ∷ []) rest v
  logged_in_alone s client resolved rest v =
      alone_go tables (update a s client) [] _ proceed _ v v (update_step s client v)
      ∙ alone_go tables (resolve a s client) [] _ (profile_is resolved) _ v v
          (resolve_step s client resolved v)
      ∙ alone_go tables (up a client resolved) [] _ proceed rest v v (up_step client resolved v)

  -- Up to the login.
  prepared_alone :
      (prepared : ProfileRef) (rest : List Reply) (w : World)
      → IsUsable tables a (settings_of tables a)
      → alone tables (begin a ∷ []) (proceed ∷ proceed ∷ profile_is prepared ∷ proceed ∷ rest) w
        ≡ alone tables
            (login a (record (settings_of tables a) { profile = prepared }) w.next_client ∷ [])
            rest
            (record w { next_client = suc w.next_client })
  prepared_alone prepared rest w u =
      let s = settings_of tables a in
      let t = record (settings_of tables a) { profile = prepared } in
      let v = record w { next_client = suc w.next_client } in
      alone_go tables (begin a) [] _ proceed _ w w (begin_step tables a w proceed u)
      ∙ alone_go tables (new_client a s) [] _ proceed _ w v (new_client_step s w)
      ∙ alone_go tables (prepare a s w.next_client) [] _ (profile_is prepared) _ v v
          (prepare_step s w.next_client prepared v)
      ∙ alone_go tables (authenticate a t w.next_client) [] _ proceed rest v v
          (authenticate_step tables a t w.next_client v (prepared-IsUsable s prepared u))

  -- An activation that has its slot and is not cancelled, with settings that can be used, becomes a
  -- session if each call of the daemon succeeds, the login with or without an SSO login, which only an
  -- interactive activation may need: past any number of status answers that are neither ready nor
  -- failed, the first that is ready ends it. The thread has nothing left to do, the state is started,
  -- the new client and the profile that was resolved are the active ones, the slot is free, the
  -- session has the next number, and no client is closed.
  pub begin-Done :
      (prepared : ProfileRef) (response : LoginResponse) (resolved : ProfileRef)
      (rs : List (Option StatusResponse)) (r : Option StatusResponse) (w : World)
      → IsUsable tables a (settings_of tables a)
      → w.activating ≡ true
      → is_cancelled a.context w ≡ false
      → (a.id == w.activation_id) ≡ true
      → (response.needs_sso_login ≡ true → a.interactive ≡ true)
      → All (IsWaiting tables) rs
      → ready (map_status tables r) ≡ true
      → Done tables a w.next_client resolved w
          (alone tables (begin a ∷ []) (all_succeed prepared response resolved rs r) w)
  begin-Done prepared response resolved rs r w u on live same interactive waiting is_ready =
      let t = record (settings_of tables a) { profile = prepared } in
      let client = w.next_client in
      let rest = proceed ∷ profile_is resolved ∷ proceed ∷ polled rs (status_is r ∷ proceeds) in
      let (v, k, path) =
        login_alone tables a t client response rest (record w { next_client = suc w.next_client })
          on same interactive in
      let alike : Alike w v = record {
        activating = k.activating;
        cancelled = k.cancelled;
        closed = k.closed;
        session_id = k.session_id;
      } in
      let done =
        wait_ready-Done tables a client resolved rs r v waiting is_ready
          (ap (member a.context) k.cancelled ∙ live) (k.activating ∙ on) in
      subst (Done tables a client resolved w)
        (sym (
          prepared_alone prepared _ w u
          ∙ path
          ∙ logged_in_alone t client resolved (polled rs (status_is r ∷ proceeds)) v))
        (Done-Alike client resolved w v _ alike done)
