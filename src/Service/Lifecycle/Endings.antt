-- ===== src/Service/Lifecycle/Endings.antt =====
-- internal/nmplugin/service.go: the sections that cancel an activation or end a session.
use network_manager_vpn_plug.Prelude.{
  ℕ, ◌≤◌, true, false, ◌∷◌, Option, none, some, ◌≡◌, ◌==◌, ◌&&◌, refl, sym, subst, ◌⊎◌, inl, inr,
  Bool-cases, is_some, is_empty, text_eq, arith,
}
use network_manager_vpn_plug.Daemon.{no_profile}
use network_manager_vpn_plug.Settings.Parse.{ActivationSettings}
use network_manager_vpn_plug.Settings.Values.{ConnectionSettings}
use network_manager_vpn_plug.Service.Phases.{disconnect_client, after_failed_session}
use network_manager_vpn_plug.Service.Locked.{
  FailedSession, set_state_value, clear_active_session, fail_active_session, disconnect_locked,
  set_failure_locked, new_secrets_locked, new_secrets_at, handle_new_secrets_locked,
  handle_new_secrets_of,
}
use network_manager_vpn_plug.Service.Program.{
  Op, cancel_context, disconnect, set_failure, new_secrets, clear_session, fail_session,
}
use network_manager_vpn_plug.Service.Lifecycle.{Allowed, cancels, phase}
use network_manager_vpn_plug.Service.Lifecycle.Guarantee.{
  Ended, Guaranteed, Same-phase, Ended-Guaranteed,
}
use network_manager_vpn_plug.Service.Lifecycle.Moves.{
  Allowed-refl, cancel-Grows, cancelled_moves, dropped_moves, member_cons,
}
use network_manager_vpn_plug.Service.Lifecycle.Ties.{Fresh, Same, names, set_state_value-Same}
use network_manager_vpn_plug.Service.Prompts.{format_activation_id}
use network_manager_vpn_plug.Service.Shared.{Shared}
use network_manager_vpn_plug.Service.State.{
  World, ActivationPrompt, PromptKind, setup_key, sso, cancel, member, stopped,
}

module _ (k n : ℕ) (w : World) (f : Fresh k w) where
  -- The service with the activation under way cancelled.
  abbrev with_cancelled : World
  with_cancelled = record w { cancelled = cancel w.activation_cancel w.cancelled }

  pub Same-Ended : (op : Op) (v : World) → Same w v → Ended k op w v
  Same-Ended op v s = record {
    still_fresh = ground arith;
    no_new = s.next_context;
    same_slot = s.activation_cancel;
    moved = subst (Allowed op (phase w)) (sym (Same-phase w v s)) (Allowed-refl op (phase w));
  }

  with_cancelled-Ended :
      (op : Op) (v : World) → cancels op ≡ true → Same with_cancelled v → Ended k op w v
  with_cancelled-Ended op v h s = record {
    still_fresh = unfold member in ground arith;
    no_new = s.next_context;
    same_slot = s.activation_cancel;
    moved = subst (Allowed op (phase w)) (sym (Same-phase with_cancelled v s)) (
        cancelled_moves op w.activating w.activation_cancel w.cancelled
          (cancel w.activation_cancel w.cancelled) w.client w.active_profile h
          (cancel-Grows w.activation_cancel w.cancelled));
  }

  pub disconnect_locked-Ended : Ended k disconnect w (disconnect_locked w).1
  unfolding disconnect_locked
  disconnect_locked-Ended = record {
    still_fresh = unfold member in ground arith;
    no_new = refl;
    same_slot = refl;
    moved =
        dropped_moves disconnect w.activating w.activation_cancel w.cancelled
          (cancel w.monitor_cancel (cancel w.activation_cancel w.cancelled)) w.client
          w.active_profile no_profile refl (λ _ e. absurd (cc))
          (λ c h.
            cancel-Grows w.monitor_cancel (cancel w.activation_cancel w.cancelled) c
              (cancel-Grows w.activation_cancel w.cancelled c h));
  }

  pub disconnect-Guaranteed :
      (x : Option ℕ × World)
      → Ended k disconnect w x.1
      → Guaranteed k n disconnect w (disconnect_client x)
  unfolding disconnect_client
  disconnect-Guaranteed (none, v) d = Ended-Guaranteed k n disconnect w _ v refl d (tt, (tt, tt)) tt
  disconnect-Guaranteed (some c, v) d =
      Ended-Guaranteed k n disconnect w _ v refl d (tt, (tt, tt)) tt

  pub set_failure_locked-Ended : Ended k set_failure w (set_failure_locked w)
  unfolding set_failure_locked
  set_failure_locked-Ended = record {
    still_fresh = unfold member in ground arith;
    no_new = refl;
    same_slot = refl;
    moved =
        cancelled_moves set_failure w.activating w.activation_cancel w.cancelled
          (cancel w.activation_cancel w.cancelled) w.client w.active_profile refl
          (cancel-Grows w.activation_cancel w.cancelled);
  }

  pub cancel_context-Ended :
      (c : ℕ)
      → (w.next_context ≤ k → (k == c) ≡ false)
      → Ended k (cancel_context c) w (record w { cancelled = c ∷ w.cancelled })
  cancel_context-Ended c past = record {
    still_fresh = unfold member in ground arith;
    no_new = refl;
    same_slot = refl;
    moved =
        cancelled_moves (cancel_context c) w.activating w.activation_cancel w.cancelled
          (c ∷ w.cancelled) w.client w.active_profile refl (member_cons c w.cancelled);
  }

  pub clear_active_session-Ended :
      Shared w
      → (session : ℕ) → Ended k (clear_session session) w (clear_active_session session w).1
  unfolding clear_active_session
  clear_active_session-Ended sh session = elim (Bool-cases (w.session_id == session)) [
    | inr e ↦ rw e (record {
      still_fresh = f;
      no_new = refl;
      same_slot = refl;
      moved = Allowed-refl (clear_session session) (phase w);
    })
    | inl e ↦ rw e (record {
      still_fresh = unfold member in ground arith;
      no_new = refl;
      same_slot = refl;
      moved =
          dropped_moves (clear_session session) w.activating w.activation_cancel w.cancelled
            (cancel w.monitor_cancel w.cancelled) w.client w.active_profile no_profile refl
            (λ a _. ground arith) (cancel-Grows w.monitor_cancel w.cancelled);
    })
  ]

  -- The service without its session.
  abbrev without_session : World
  without_session = record w { monitor_cancel = none; client = none; active_profile = no_profile }

  -- What `failActiveSessionAfterStatusThreshold` takes out of the service names no new context.
  abbrev pub FailedPast : ℕ → Option FailedSession × World → Type 0
  FailedPast session (none, v) = Ended k (fail_session session) w v
  FailedPast session (some s, v) =
      Ended k (fail_session session) w v × (w.next_context ≤ k → names k s.monitor ≡ false)

  failed_world-Ended :
      (session : ℕ) (v : World) → Same without_session v → Ended k (fail_session session) w v
  failed_world-Ended session v s = record {
    still_fresh = ground arith;
    no_new = s.next_context;
    same_slot = s.activation_cancel;
    moved =
        subst (Allowed (fail_session session) (phase w)) (sym (Same-phase without_session v s)) (
          dropped_moves (fail_session session) w.activating w.activation_cancel w.cancelled
            w.cancelled w.client w.active_profile no_profile refl (λ _ _. refl) (λ c h. h));
  }

  pub fail_active_session-FailedPast :
      (session : ℕ) → FailedPast session (fail_active_session session w)
  unfolding fail_active_session
  fail_active_session-FailedPast session =
      elim (Bool-cases (w.session_id == session && is_some w.client)) [
        | inr e ↦ rw e (record {
          still_fresh = f;
          no_new = refl;
          same_slot = refl;
          moved = Allowed-refl (fail_session session) (phase w);
        })
        | inl e ↦ rw e (
          failed_world-Ended session (set_state_value stopped without_session).1
              (set_state_value-Same stopped without_session),
          f.no_monitor,
        )
      ]

  pub fail_session-Guaranteed :
      (session : ℕ) (x : Option FailedSession × World)
      → FailedPast session x
      → Guaranteed k n (fail_session session) w (after_failed_session x)
  unfolding after_failed_session
  fail_session-Guaranteed session (none, v) d =
      Ended-Guaranteed k n (fail_session session) w _ v refl d tt tt
  fail_session-Guaranteed session (some s, v) (d, past) =
      let g : v.next_context ≡ w.next_context = d.no_new in
      Ended-Guaranteed k n (fail_session session) w _ v refl d (ground arith) tt

  handle_new_secrets_of-Same :
      (kind : PromptKind) (p : ActivationPrompt) (s : ActivationSettings)
      → Same w (handle_new_secrets_of kind p s w)
        ⊎ Same with_cancelled (handle_new_secrets_of kind p s w)
  unfolding handle_new_secrets_of
  handle_new_secrets_of-Same setup_key p s = inl (ground arith)
  handle_new_secrets_of-Same sso p s = elim (Bool-cases s.sso_cancel) [
    | inl e ↦ rw e (inr (ground arith))
    | inr e ↦ inl (ground arith)
  ]

  new_secrets_at-Same :
      (x : Option ActivationPrompt) (s : ActivationSettings)
      → Same w (new_secrets_at x s w) ⊎ Same with_cancelled (new_secrets_at x s w)
  unfolding new_secrets_at handle_new_secrets_locked
  new_secrets_at-Same none s = inl (ground arith)
  new_secrets_at-Same (some p) s = elim (Bool-cases (is_empty s.prompt_activation_id)) [
    | inl e ↦ rw e (handle_new_secrets_of-Same p.kind p s)
    | inr e ↦
        rw e
          (elim (Bool-cases
            (text_eq s.prompt_activation_id (format_activation_id p.activation_id))) [
              | inl e' ↦ rw e' (handle_new_secrets_of-Same p.kind p s)
              | inr e' ↦ rw e' (inl (ground arith))
            ])
  ]

  -- `NewSecrets` changes nothing, or cancels the activation under way.
  pub new_secrets_locked-Ended :
      (connection : ConnectionSettings) (s : ActivationSettings)
      → Ended k (new_secrets connection) w (new_secrets_locked s w)
  unfolding new_secrets_locked
  new_secrets_locked-Ended connection s = elim (new_secrets_at-Same w.prompt s) [
    | inl e ↦ Same-Ended (new_secrets connection) _ e
    | inr e ↦ with_cancelled-Ended (new_secrets connection) _ refl e
  ]
