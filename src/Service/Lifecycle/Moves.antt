-- ===== src/Service/Lifecycle/Moves.antt =====
-- internal/nmplugin/service.go: the sections under the lock that move the abstract machine.
use network_manager_vpn_plug.Prelude.{
  ℕ, Bool, true, false, ◌||◌, List, ◌∷◌, Option, none, some, ◌≡◌, refl, arith, is_some,
}
use network_manager_vpn_plug.Daemon.{ProfileRef}
use network_manager_vpn_plug.Service.Lifecycle.{
  Allowed, Phase, idle, busy, connected, cancels, drops, gives_back, held_phase, phase_of, reserves,
}
use network_manager_vpn_plug.Service.Program.{ActivationAttempt, Op, complete}
use network_manager_vpn_plug.Service.State.{cancel, member}

pub Allowed-refl : (op : Op) (x : Phase) → Allowed op x x
Allowed-refl op idle = tt
Allowed-refl op (busy c cancelled) = (refl, λ h. h, λ h. refl)
Allowed-refl op (connected k p) = (refl, refl)

-- More contexts are cancelled.
abbrev pub Grows : List ℕ → List ℕ → Type 0
Grows cs ds = (c : ℕ) → member c cs ≡ true → member c ds ≡ true

pub member_cons : (d : ℕ) (cs : List ℕ) → Grows cs (d ∷ cs)
unfolding member
member_cons d cs c h = ground arith

pub cancel-Grows : (o : Option ℕ) (cs : List ℕ) → Grows cs (cancel o cs)
cancel-Grows none cs c h = h
cancel-Grows (some d) cs c h = member_cons d cs c h

-- While an activation is under way, an operation that may cancel cancels contexts, and no more.
pub cancelled_moves :
    (op : Op) (activating : Bool) (context : Option ℕ) (cs ds : List ℕ) (client : Option ℕ)
    (p : ProfileRef)
    → cancels op ≡ true
    → Grows cs ds
    → Allowed op (phase_of activating context cs client p) (phase_of activating context ds client p)
cancelled_moves op true none cs ds client p h g = tt
cancelled_moves op true (some c) cs ds client p h g = (refl, g c, λ e. absurd (cc))
cancelled_moves op false context cs ds client p h g = Allowed-refl op (held_phase client p)

-- A connection ends, and an activation that is under way may be cancelled with it.
pub dropped_moves :
    (op : Op) (activating : Bool) (context : Option ℕ) (cs ds : List ℕ) (client : Option ℕ)
    (p q : ProfileRef)
    → drops op ≡ true
    → (activating ≡ true → cancels op ≡ false → ds ≡ cs)
    → Grows cs ds
    → Allowed op (phase_of activating context cs client p) (phase_of activating context ds none q)
dropped_moves op true none cs ds client p q h e g = tt
dropped_moves op true (some c) cs ds client p q h e g =
    (refl, g c, λ k. let s : ds ≡ cs = e refl k in rw s refl)
dropped_moves op false context cs ds none p q h e g = tt
dropped_moves op false context cs ds (some k) p q h e g = h

pub reserved_moves :
    (op : Op) (activating : Bool) (context : Option ℕ) (cs : List ℕ) (client : Option ℕ)
    (p : ProfileRef) (next : ℕ)
    → reserves op ≡ true
    → activating || is_some client ≡ false
    → member next cs ≡ false
    → Allowed op (phase_of activating context cs client p) (phase_of true (some next) cs client p)
reserved_moves op true context cs client p next h e m = absurd (cc)
reserved_moves op false context cs (some k) p next h e m = absurd (cc)
reserved_moves op false context cs none p next h e m = (h, m)

pub given_back_moves :
    (op : Op) (context : Option ℕ) (cs : List ℕ) (p : ProfileRef)
    → gives_back op ≡ true
    → Allowed op (phase_of true context cs none p) (phase_of false none cs none p)
given_back_moves op none cs p h = tt
given_back_moves op (some c) cs p h = h

pub completed_moves :
    (a : ActivationAttempt) (client : ℕ) (q : ProfileRef) (cs ds : List ℕ) (p : ProfileRef)
    → member a.context cs ≡ false
    → Allowed
        (complete a client q)
        (phase_of true (some a.context) cs none p)
        (phase_of false none ds (some client) q)
completed_moves a client q cs ds p h = (refl, h, refl, refl)
