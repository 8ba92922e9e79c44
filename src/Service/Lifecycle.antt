-- ===== src/Service/Lifecycle.antt =====
-- internal/nmplugin/service.go: what the service promises of a connection, as an abstract machine. It
-- is idle, busy with one activation, or connected; the fields of `Service` show the phase.
pub mod Ties
pub mod Moves
pub mod Guarantee
pub mod Endings
pub mod Slots
pub mod Steps
pub mod History
pub mod Refines
use network_manager_vpn_plug.Prelude.{ℕ, Bool, true, false, List, [], ◌∷◌, Option, none, some, ◌≡◌}
use network_manager_vpn_plug.Daemon.{ProfileRef}
use network_manager_vpn_plug.Service.Program.{
  Op, cancel_context, reserve, disconnect, set_failure, new_secrets, complete, finish_failed,
  clear_session, fail_session,
}
use network_manager_vpn_plug.Service.State.{World, member}

-- Busy with the activation that has this context, which is or is not cancelled; connected through
-- this client to this profile.
pub data Phase : Type 0 where
  idle : Phase
  busy : ℕ → Bool → Phase
  connected : ℕ → ProfileRef → Phase

abbrev pub busy_phase : Option ℕ → List ℕ → Phase
busy_phase none cancelled = idle
busy_phase (some c) cancelled = busy c (member c cancelled)

abbrev pub held_phase : Option ℕ → ProfileRef → Phase
held_phase none p = idle
held_phase (some client) p = connected client p

abbrev pub phase_of : Bool → Option ℕ → List ℕ → Option ℕ → ProfileRef → Phase
phase_of true context cancelled client p = busy_phase context cancelled
phase_of false context cancelled client p = held_phase client p

abbrev pub phase : World → Phase
phase w = phase_of w.activating w.activation_cancel w.cancelled w.client w.active_profile

-- The operations that may cancel an activation, and those that end a connection.
abbrev pub cancels : Op → Bool
cancels disconnect = true
cancels set_failure = true
cancels (new_secrets _) = true
cancels (cancel_context _) = true
cancels _ = false

abbrev pub drops : Op → Bool
drops disconnect = true
drops (clear_session _) = true
drops (fail_session _) = true
drops _ = false

abbrev pub reserves : Op → Bool
reserves (reserve _ _ _) = true
reserves _ = false

abbrev pub gives_back : Op → Bool
gives_back finish_failed = true
gives_back _ = false

abbrev pub Completes : Op → ℕ → Bool → ℕ → ProfileRef → Type 0
Completes (complete a client p) c cancelled k q =
    (a.context ≡ c) × (cancelled ≡ false) × (client ≡ k) × (p ≡ q)
Completes _ c cancelled k q = ⊥

-- The moves of the abstract machine. Only a request leaves the idle phase, for an activation that is
-- not cancelled; its cancellation is for good; only an activation that is not cancelled connects, by
-- its own completion; and only the end of an activation or of a connection leads back.
abbrev pub Allowed : Op → Phase → Phase → Type 0
Allowed op idle idle = Unit
Allowed op idle (busy c cancelled) = (reserves op ≡ true) × (cancelled ≡ false)
Allowed op idle (connected k p) = ⊥
Allowed op (busy c cancelled) idle = gives_back op ≡ true
Allowed op (busy c cancelled) (busy d later) =
    (c ≡ d) × (cancelled ≡ true → later ≡ true) × (cancels op ≡ false → later ≡ cancelled)
Allowed op (busy c cancelled) (connected k p) = Completes op c cancelled k p
Allowed op (connected k p) idle = drops op ≡ true
Allowed op (connected k p) (busy c cancelled) = ⊥
Allowed op (connected k p) (connected l q) = (k ≡ l) × (p ≡ q)

-- The operations and the phases behind them are moves of the machine, each from where the one before
-- it has led.
abbrev pub IsTrace : Phase → List (Op × Phase) → Type 0
IsTrace x [] = Unit
IsTrace x ((op, y) ∷ rest) = Allowed op x y × IsTrace y rest
