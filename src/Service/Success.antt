-- ===== src/Service/Success.antt =====
-- internal/nmplugin/service.go, `waitForReady` and what `runActivation` does behind it: an activation
-- whose engine gets ready becomes a session.
use network_manager_vpn_plug.Prelude.{
  ℕ, Bool, true, false, List, [], ◌∷◌, ◌++◌, Option, some, ◌≡◌, refl, ap, sym, subst, ◌==◌, ◌∙◌,
  arith, All,
}
use network_manager_vpn_plug.Go.Unicode.{Tables}
use network_manager_vpn_plug.Daemon.{ProfileRef}
use network_manager_vpn_plug.Daemon.Messages.{StatusResponse}
use network_manager_vpn_plug.Status.{has_failed, map_status, ready}
use network_manager_vpn_plug.Service.Exec.{exec}
use network_manager_vpn_plug.Service.Locked.{
  clear_prompt_for_activation, complete_activation, set_state_for_active_session,
}
use network_manager_vpn_plug.Service.Monitor.{alone}
use network_manager_vpn_plug.Service.Phases.{announce, go_on, say}
use network_manager_vpn_plug.Service.Program.{
  ActivationAttempt, Reply, proceed, status_is, Op, complete, emit_config, ready_tick, wait_ready,
  set_active_state, clear_prompt, cancel_context, finish_activation_attempt,
}
use network_manager_vpn_plug.Service.State.{
  World, ServiceState, config, is_cancelled, next_u64, started, state_number,
}

-- An answer that is neither ready nor failed.
abbrev pub IsWaiting : Tables → Option StatusResponse → Type 0
IsWaiting tables r =
    (ready (map_status tables r) ≡ false) × (has_failed (map_status tables r) ≡ false)

-- The answers, each with the tick of the clock behind it.
abbrev pub polled : List (Option StatusResponse) → List Reply → List Reply
polled [] rest = rest
polled (r ∷ rs) rest = status_is r ∷ proceed ∷ polled rs rest

abbrev pub proceeds : List Reply
proceeds = proceed ∷ proceed ∷ proceed ∷ proceed ∷ proceed ∷ proceed ∷ proceed ∷ proceed ∷ []

module _ (tables : Tables) (a : ActivationAttempt) (client : ℕ) (p : ProfileRef) where
  waiting_step :
      (r : Option StatusResponse) (w : World)
      → IsWaiting tables r
      → exec tables (wait_ready a client p) (status_is r) w ≡ go_on (ready_tick a client p ∷ []) w
  unfolding exec
  waiting_step r w (not_ready, not_failed) = ground (arith, not_ready, not_failed)

  tick_step :
      (w : World)
      → exec tables (ready_tick a client p) proceed w ≡ go_on (wait_ready a client p ∷ []) w
  unfolding exec
  tick_step w = refl

  ready_step :
      (r : Option StatusResponse) (w : World)
      → ready (map_status tables r) ≡ true
      → exec tables (wait_ready a client p) (status_is r) w ≡ go_on (emit_config a client p ∷ []) w
  unfolding exec
  ready_step r w is_ready = ground (arith, is_ready)

  emit_step :
      (w : World)
      → exec tables (emit_config a client p) proceed w
        ≡ go_on (complete a client p ∷ []) (say config w)
  unfolding exec
  emit_step w = refl

  alone_next :
      (op : Op) (ops next : List Op) (r : Reply) (rs : List Reply) (w v : World)
      → (exec tables op r w).next ≡ next
      → (exec tables op r w).world ≡ v
      → alone tables (op ∷ ops) (r ∷ rs) w ≡ alone tables (next ++ ops) rs v
  unfolding alone
  alone_next op ops next r rs w v e f =
      ap (λ n. alone tables (n ++ ops) rs (exec tables op r w).world) e
      ∙ ap (λ u. alone tables (next ++ ops) rs u) f

  waiting_alone :
      (rs : List (Option StatusResponse)) (rest : List Reply) (w : World)
      → All (IsWaiting tables) rs
      → alone tables (wait_ready a client p ∷ []) (polled rs rest) w
        ≡ alone tables (wait_ready a client p ∷ []) rest w
  waiting_alone [] rest w all = refl
  waiting_alone (r ∷ rs) rest w (h, all) =
      let e = waiting_step r w h in
      alone_next (wait_ready a client p) [] (ready_tick a client p ∷ []) (status_is r)
        (proceed ∷ polled rs rest) w w (ap (λ o. o.next) e) (ap (λ o. o.world) e)
      ∙ alone_next (ready_tick a client p) [] (wait_ready a client p ∷ []) proceed (polled rs rest)
          w w (ap (λ o. o.next) (tick_step w)) (ap (λ o. o.world) (tick_step w))
      ∙ waiting_alone rs rest w all

  -- The service has a session with the client and the profile.
  pub record IsSession (w v : World) : Type 0 where
    pub client_set : v.client ≡ some client
    pub profile : v.active_profile ≡ p
    pub slot_free : v.activating ≡ false
    pub not_closed : v.closed ≡ w.closed
    pub session : v.session_id ≡ next_u64 w.session_id

  complete_step :
      (w : World)
      → is_cancelled a.context w ≡ false
      → w.activating ≡ true
      → ((exec tables (complete a client p) proceed w).next
          ≡ set_active_state (next_u64 w.session_id)
            ∷ clear_prompt a.id
            ∷ cancel_context a.context
            ∷ [])
        × IsSession w (exec tables (complete a client p) proceed w).world
  unfolding exec complete_activation finish_activation_attempt
  complete_step w live held = ground (arith, live, held)

  abbrev ending : ℕ → List Op
  ending session = set_active_state session ∷ clear_prompt a.id ∷ cancel_context a.context ∷ []

  started_of_number :
      (st : ServiceState) → (state_number st == state_number started) ≡ true → st ≡ started
  started_of_number started h = refl
  started_of_number _ h = absurd (cc)

  -- The operations behind `completeActivation`, one after the other.
  activated :
      (w v : World)
      → IsSession w v
      → ((set_state_for_active_session v.session_id started v).1.state ≡ started)
        × IsSession w (set_state_for_active_session v.session_id started v).1
  unfolding set_state_for_active_session
  activated w v s = ground (arith, started_of_number v.state)

  -- What holds once the thread has nothing left to do.
  abbrev pub Done : World → List Op × World → Type 0
  Done w r = (r.0 ≡ []) × (r.1.state ≡ started) × IsSession w r.1

  announced_alone :
      (w u : World) (changed : Bool)
      → u.state ≡ started
      → IsSession w u
      → Done w (
          alone tables
            (announce started changed ++ (clear_prompt a.id ∷ cancel_context a.context ∷ []))
            (proceed ∷ proceed ∷ proceed ∷ proceed ∷ proceed ∷ [])
            u)
  unfolding alone exec clear_prompt_for_activation
  announced_alone w u false h s = ground arith
  announced_alone w u true h s = ground arith

  ending-alone :
      (w v : World)
      → IsSession w v
      → Done w (
          alone tables
            (ending v.session_id)
            (proceed ∷ proceed ∷ proceed ∷ proceed ∷ proceed ∷ proceed ∷ [])
            v)
  unfolding alone exec
  ending-alone w v s =
      let x = set_state_for_active_session v.session_id started v in
      let (h, t) = activated w v s in announced_alone w x.1 x.0 h t

  -- An activation that is not cancelled and has its slot, and that waits until the engine is ready,
  -- goes on past any number of answers that are neither ready nor failed. At the first that is ready it
  -- sends its configuration, and ends with a session: the state is started, the client and the profile
  -- are the active ones, the slot is free, the session has the next number, and no client is closed.
  pub wait_ready-Done :
      (rs : List (Option StatusResponse)) (r : Option StatusResponse) (w : World)
      → All (IsWaiting tables) rs
      → ready (map_status tables r) ≡ true
      → is_cancelled a.context w ≡ false
      → w.activating ≡ true
      → Done w (alone tables (wait_ready a client p ∷ []) (polled rs (status_is r ∷ proceeds)) w)
  wait_ready-Done rs r w waiting is_ready live held =
      let e = ready_step r w is_ready in
      let v = say config w in
      let c = exec tables (complete a client p) proceed v in
      let (n, s) = complete_step v live held in
      let path : alone tables (wait_ready a client p ∷ []) (polled rs (status_is r ∷ proceeds)) w
          ≡ alone tables (ending c.world.session_id)
              (proceed ∷ proceed ∷ proceed ∷ proceed ∷ proceed ∷ proceed ∷ []) c.world =
        waiting_alone rs (status_is r ∷ proceeds) w waiting
        ∙ alone_next (wait_ready a client p) [] (emit_config a client p ∷ []) (status_is r) proceeds
            w w (ap (λ o. o.next) e) (ap (λ o. o.world) e)
        ∙ alone_next (emit_config a client p) [] (complete a client p ∷ []) proceed _ w v
            (ap (λ o. o.next) (emit_step w)) (ap (λ o. o.world) (emit_step w))
        ∙ alone_next (complete a client p) [] (ending c.world.session_id) proceed _ v c.world
            (n ∙ ap ending (sym s.session)) refl in
      subst (Done w) (sym path) (
        ending-alone w c.world (record {
          client_set = s.client_set;
          profile = s.profile;
          slot_free = s.slot_free;
          not_closed = s.not_closed;
          session = s.session;
        }))
