-- ===== src/Grpc/Wait.antt =====
-- internal/netbird/daemonclient/grpc.go, `waitForReady`: it ends, and with success only at a ready state.
use network_manager_vpn_plug.Prelude.{
  ℕ, zero, suc, ◌≤◌, ◌<◌, Bool, true, false, ◌≡◌, ◌≢◌, refl, arith, ok, err, Result, Bool-cases,
  inl, inr, ◌⊎◌, subst,
}
use network_manager_vpn_plug.Grpc.Dial.{
  ConnectionState, idle, connecting, ready, transient_failure, shutdown, WaitError,
  connection_shutdown, context_done, not_changed, out_of_fuel, Deadline, Network, not_changed_error,
  wait_rounds, wait_for_ready,
}

-- A deadline leaves time for so many changes of state: each change that is reported takes one.
pub record Patience (network : Network) (deadline : Deadline) : Type 0 where
  pub left : network.World → ℕ
  pub connect_left : (c : ℕ) (w : network.World) → left (network.connect c w) ≤ left w
  pub get_state_left : (c : ℕ) (w : network.World) → left (network.get_state c w).1 ≤ left w
  pub change_takes :
      (c : ℕ) (s : ConnectionState) (w : network.World)
      → (network.wait_for_state_change deadline c s w).0 ≡ true
      → left (network.wait_for_state_change deadline c s w).1 < left w

module _ (network : Network) where
  open network use {World}

  -- Success, with the world in which the connection was ready; or an error that the code knows.
  pub data Ended (c : ℕ) : Result WaitError (Unit {0}) × World → Type 0 where
    at_ready :
        (v : World) (x : Result WaitError (Unit {0}) × World)
        → (network.get_state c v).0 ≡ ready
        → x ≡ (ok tt, (network.get_state c v).1)
        → Ended c x
    with_error :
        (e : WaitError) (v : World) (x : Result WaitError (Unit {0}) × World)
        → e ≢ out_of_fuel
        → x ≡ (err e, v)
        → Ended c x

  State-cases :
      (s : ConnectionState) → (s ≡ ready) ⊎ (s ≡ shutdown) ⊎ ((s ≢ ready) × (s ≢ shutdown))
  State-cases ready = inl refl
  State-cases shutdown = inr (inl refl)
  State-cases idle = inr (inr (λ h. cc, λ h. cc))
  State-cases connecting = inr (inr (λ h. cc, λ h. cc))
  State-cases transient_failure = inr (inr (λ h. cc, λ h. cc))

  not_changed-Ended : (c : ℕ) (x : Bool × World) → Ended c (not_changed_error network x)
  unfolding not_changed_error
  not_changed-Ended c (true, w) = with_error context_done w _ (λ h. cc) refl
  not_changed-Ended c (false, w) = with_error not_changed w _ (λ h. cc) refl

  module _ (d : Deadline) (p : Patience network d) where
    rounds-Ended :
        (fuel c : ℕ) (w : World) → p.left w < fuel → Ended c (wait_rounds network fuel d c w)
    unfolding wait_rounds
    rounds-Ended zero c w h = absurd (omega arith)
    rounds-Ended (suc fuel) c w h =
        let s = network.get_state c w in
        let u = network.wait_for_state_change d c s.0 s.1 in
        elim (State-cases s.0) [
          | inl e ↦ at_ready w _ e (ground arith)
          | inr (inl e) ↦ with_error connection_shutdown s.1 _ (λ h. cc) (ground arith)
          | inr (inr (nr, ns)) ↦ elim (Bool-cases u.0) [
            | inl e ↦ subst (Ended c) (ground arith) (
                rounds-Ended fuel c u.1
                  (omega (arith, p.change_takes c s.0 s.1 e, p.get_state_left c w)))
            | inr e ↦ subst (Ended c) (ground arith) (not_changed-Ended c (network.is_done d u.1))
          ]
        ]

    -- Under a deadline that leaves time for fewer changes than there is fuel, `waitForReady` ends: with
    -- success in a world where the connection's state is ready, or with one of its own errors.
    pub wait_for_ready-Ended :
        (fuel c : ℕ) (w : World) → p.left w < fuel → Ended c (wait_for_ready network fuel d c w)
    unfolding wait_for_ready
    wait_for_ready-Ended fuel c w h =
        rounds-Ended fuel c (network.connect c w) (omega (arith, p.connect_left c w))
