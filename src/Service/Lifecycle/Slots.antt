-- ===== src/Service/Lifecycle/Slots.antt =====
-- internal/nmplugin/service.go: the sections that take the slot of an activation and give it back.
use network_manager_vpn_plug.Prelude.{
  ℕ, suc, ◌+◌, Bool, true, false, [], Option, none, some, ◌≡◌, not, refl, sym, subst, ◌||◌, ◌⊎◌,
  inl, inr, Bool-cases, is_some, arith, bit,
}
use network_manager_vpn_plug.Daemon.{ProfileRef}
use network_manager_vpn_plug.Settings.Values.{ConnectionSettings, VariantMap}
use network_manager_vpn_plug.Service.Phases.{go_on, start_activation, after_completion}
use network_manager_vpn_plug.Service.Locked.{
  reserve_activation, finish_failed_activation, complete_activation,
}
use network_manager_vpn_plug.Service.Program.{ActivationAttempt, reserve, complete, finish_failed}
use network_manager_vpn_plug.Service.Lifecycle.{Allowed, idle, connected, busy_phase, phase}
use network_manager_vpn_plug.Service.Lifecycle.Guarantee.{Guaranteed, Plain-Guaranteed}
use network_manager_vpn_plug.Service.Lifecycle.Moves.{
  completed_moves, given_back_moves, reserved_moves,
}
use network_manager_vpn_plug.Service.Lifecycle.Ties.{Fresh, IsOwn}
use network_manager_vpn_plug.Service.Shared.{Shared}
use network_manager_vpn_plug.Service.State.{World, member, next_u64}

module _ (k n : ℕ) (w : World) (sh : Shared w) (f : Fresh k w) where
  reserve_cases :
      ((w.activating || is_some w.client ≡ true) × (reserve_activation w ≡ (none, w)))
      ⊎ ((w.activating || is_some w.client ≡ false)
          × (reserve_activation w ≡ (
            some (w.next_context, next_u64 w.activation_id),
            record w {
              activation_id = next_u64 w.activation_id;
              activating = true;
              activation_cancel = some w.next_context;
              prompt = none;
              next_context = suc w.next_context;
            },
          )))
  unfolding reserve_activation
  reserve_cases = elim (Bool-cases (w.activating || is_some w.client)) [
    | inl e ↦ inl (e, rw e refl)
    | inr e ↦ inr (e, rw e refl)
  ]

  pub start_activation-Guaranteed :
      (c : ConnectionSettings) (d : VariantMap) (i : Bool)
      → n ≡ bit w.activating
      → Guaranteed k n (reserve c d i) w (start_activation c d i (reserve_activation w))
  unfolding start_activation
  start_activation-Guaranteed c d i h = elim reserve_cases [
    | inl (e, r) ↦ rw r (Plain-Guaranteed k n (reserve c d i) w _ f (ground arith))
    | inr (e, r) ↦ rw r (record {
      fresh = ground arith;
      next = ground arith;
      spawned = tt;
      grows = omega arith;
      keeps = ground arith;
      moves = λ same.
          reserved_moves (reserve c d i) w.activating w.activation_cancel w.cancelled w.client
            w.active_profile w.next_context refl e (ground arith);
    })
  ]

  -- The phase of a world with an activation under way, whose cancel function is this.
  busy_now :
      (context : Option ℕ)
      → w.activating ≡ true
      → w.activation_cancel ≡ context
      → phase w ≡ busy_phase context w.cancelled
  busy_now context e own = rw (e, own)

  pub finish_failed-Guaranteed :
      1 + n ≡ bit w.activating
      → Guaranteed k n finish_failed w (go_on [] (finish_failed_activation w))
  unfolding finish_failed_activation
  finish_failed-Guaranteed h =
      let on : w.activating ≡ true = ground arith in
      let left : phase (finish_failed_activation w) ≡ idle =
        unfold finish_failed_activation in rw (sh.idle_client on) in
      record {
        fresh = ground arith;
        next = tt;
        spawned = tt;
        grows = omega arith;
        keeps = λ some_left. absurd (ground arith);
        moves = λ _. subst (Allowed finish_failed (phase w)) (sym left) (
            subst (λ x. Allowed finish_failed x idle) (sym (busy_now w.activation_cancel on refl))
              (given_back_moves finish_failed w.activation_cancel w.cancelled w.active_profile
                refl));
      }

  pub complete-Guaranteed :
      (a : ActivationAttempt) (client : ℕ) (p : ProfileRef)
      → 1 + n ≡ bit w.activating
      → IsOwn w a
      → Guaranteed k n
          (complete a client p)
          w
          (after_completion a client w.next_context (complete_activation a.context client p w))
  unfolding after_completion complete_activation
  complete-Guaranteed a client p h own =
      elim (Bool-cases (member a.context w.cancelled || not w.activating)) [
        | inl e ↦ rw e (Plain-Guaranteed k n (complete a client p) w _ f (ground arith))
        | inr e ↦
            let on : w.activating ≡ true = ground arith in
            let alive : member a.context w.cancelled ≡ false = ground arith in
            rw e (record {
              fresh = unfold member in ground arith;
              next = ground arith;
              spawned = (tt, tt);
              grows = omega arith;
              keeps = λ some_left. absurd (ground arith);
              moves = λ _.
                  subst (λ x. Allowed (complete a client p) x (connected client p))
                    (sym (busy_now (some a.context) on own))
                    (completed_moves a client p w.cancelled w.cancelled w.active_profile alive);
            })
      ]
