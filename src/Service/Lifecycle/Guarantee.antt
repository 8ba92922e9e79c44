-- ===== src/Service/Lifecycle/Guarantee.antt =====
-- internal/nmplugin/service.go: what a step guarantees of the contexts, of the operations behind it,
-- and of the phase.
use network_manager_vpn_plug.Prelude.{ℕ, ◌≤◌, List, [], ◌∷◌, ◌≡◌, sym, subst, arith, All}
use network_manager_vpn_plug.Service.Phases.{Outcome}
use network_manager_vpn_plug.Service.Program.{Op}
use network_manager_vpn_plug.Service.Lifecycle.{Allowed, phase}
use network_manager_vpn_plug.Service.Lifecycle.Moves.{Allowed-refl}
use network_manager_vpn_plug.Service.Lifecycle.Ties.{Fresh, Plain, Same, Tied, Tied-moved}
use network_manager_vpn_plug.Service.State.{World}

-- What an operation leaves behind, where other threads hold `n` claims of the slot. The phase moves as
-- the abstract machine allows, if `k` is the next context.
pub record Guaranteed (k n : ℕ) (op : Op) (w : World) (o : Outcome) : Type 0 where
  pub fresh : Fresh k o.world
  pub next : All (Tied k o.world) o.next
  pub spawned : All (Tied k o.world) o.spawned
  pub grows : w.next_context ≤ o.world.next_context
  pub keeps : 1 ≤ n → o.world.activation_cancel ≡ w.activation_cancel
  pub moves : k ≡ w.next_context → Allowed op (phase w) (phase o.world)

All-Tied_moved :
    (k : ℕ) (w v : World) (ops : List Op)
    → w.next_context ≤ v.next_context
    → v.activation_cancel ≡ w.activation_cancel
    → All (Tied k w) ops
    → All (Tied k v) ops
All-Tied_moved k w v [] g e h = tt
All-Tied_moved k w v (op ∷ ops) g e (t, h) =
    (Tied-moved k w v op g (λ _. e) t, All-Tied_moved k w v ops g e h)

pub Same-phase : (w v : World) → Same w v → phase v ≡ phase w
Same-phase w v s = rw (s.activating, s.activation_cancel, s.cancelled, s.client, s.active_profile)

pub Plain-Guaranteed :
    (k n : ℕ) (op : Op) (w : World) (o : Outcome) → Fresh k w → Plain k w o → Guaranteed k n op w o
Plain-Guaranteed k n op w o f (s, next, spawned) = record {
  fresh = ground arith;
  next = All-Tied_moved k w o.world o.next (omega (arith, s.next_context)) s.activation_cancel next;
  spawned =
      All-Tied_moved k w o.world o.spawned (omega (arith, s.next_context)) s.activation_cancel
        spawned;
  grows = omega (arith, s.next_context);
  keeps = λ _. s.activation_cancel;
  moves =
      λ _. subst (Allowed op (phase w)) (sym (Same-phase w o.world s)) (Allowed-refl op (phase w));
}

-- What holds of the world behind a section that cancels or ends something.
pub record Ended (k : ℕ) (op : Op) (w v : World) : Type 0 where
  pub still_fresh : Fresh k v
  pub no_new : v.next_context ≡ w.next_context
  pub same_slot : v.activation_cancel ≡ w.activation_cancel
  pub moved : Allowed op (phase w) (phase v)

-- A step that leaves the world of such a section, with operations that name no context.
pub Ended-Guaranteed :
    (k n : ℕ) (op : Op) (w : World) (o : Outcome) (v : World)
    → o.world ≡ v
    → Ended k op w v
    → All (Tied k v) o.next
    → All (Tied k v) o.spawned
    → Guaranteed k n op w o
Ended-Guaranteed k n op w o v e d next spawned = record {
  fresh = subst (Fresh k) (sym e) d.still_fresh;
  next = subst (λ u. All (Tied k u) o.next) (sym e) next;
  spawned = subst (λ u. All (Tied k u) o.spawned) (sym e) spawned;
  grows = rw e (omega (arith, d.no_new));
  keeps = λ _. rw e d.same_slot;
  moves = λ _. subst (λ u. Allowed op (phase w) (phase u)) (sym e) d.moved;
}
