-- ===== src/Service/Lifecycle/Refines.antt =====
-- internal/nmplugin/service.go: the service implements the abstract machine. Whatever the threads of a
-- run do, each step that one of them makes is a move of the machine.
use network_manager_vpn_plug.Prelude.{ℕ, ◌+◌, ◌≤◌, List, [], ◌∷◌, ◌≡◌, refl, subst, arith, bit, All}
use network_manager_vpn_plug.Go.Unicode.{Tables}
use network_manager_vpn_plug.Service.Exec.{exec}
use network_manager_vpn_plug.Service.Lifecycle.{Allowed, Phase, idle, phase, IsTrace}
use network_manager_vpn_plug.Service.Lifecycle.History.{first_of, history, noted}
use network_manager_vpn_plug.Service.Lifecycle.Guarantee.{Guaranteed}
use network_manager_vpn_plug.Service.Lifecycle.Steps.{exec-Guaranteed}
use network_manager_vpn_plug.Service.Lifecycle.Ties.{Fresh, Tied, Tied-moved}
use network_manager_vpn_plug.Service.Program.{Op, Reply}
use network_manager_vpn_plug.Service.Rely.{All-thread_at, Kept, step-Kept}
use network_manager_vpn_plug.Service.Shared.{Shared}
use network_manager_vpn_plug.Service.Slot.{claims, exec-claims, thread_of-claims}
use network_manager_vpn_plug.Service.State.{World, member}
use network_manager_vpn_plug.Service.Steps.{exec-Shared}
use network_manager_vpn_plug.Service.Threads.{total, total_all, total_all-set_thread}
use network_manager_vpn_plug.Service.System.{
  System, Event, Call, called, stepped, thread_of, thread_at, advance, step, new_service,
  set_thread,
}

-- The threads that are left agree with the slot, and contexts are new when they are made.
abbrev Linked : ℕ → World → ℕ → Type 0
Linked k w n = (n ≡ bit w.activating) × Shared w × Fresh k w

-- An operation of an activation relies on the cancel function that is set, so two of them never meet.
Tied-relied :
    (tables : Tables) (k : ℕ) (op other : Op) (r : Reply) (w : World) (n : ℕ)
    → Linked k w (claims op + n)
    → Tied k w op
    → claims other ≤ n
    → Tied k w other
    → Tied k (exec tables op r w).world other
Tied-relied tables k op other r w n (h, sh, f) t m u =
    let g : Guaranteed k n op w (exec tables op r w) = exec-Guaranteed tables k n w sh f op r h t in
    Tied-moved k w (exec tables op r w).world other g.grows (λ some_left. g.keeps (omega arith)) u

exec-Linked :
    (tables : Tables) (k : ℕ) (op : Op) (r : Reply) (w : World) (n : ℕ)
    → Linked k w (claims op + n)
    → Tied k w op
    → Linked k
        (exec tables op r w).world
        (total claims (exec tables op r w).next + total claims (exec tables op r w).spawned + n)
      × All (Tied k (exec tables op r w).world) (exec tables op r w).next
      × All (Tied k (exec tables op r w).world) (exec tables op r w).spawned
exec-Linked tables k op r w n (h, sh, f) t =
    let g : Guaranteed k n op w (exec tables op r w) = exec-Guaranteed tables k n w sh f op r h t in
    ((exec-claims tables op r w n h, exec-Shared tables op r w sh, g.fresh), g.next, g.spawned)

thread_of-Tied :
    (k : ℕ) (w : World) (c : Call) → (total claims (thread_of c) ≡ 0) × All (Tied k w) (thread_of c)
thread_of-Tied k w c = (thread_of-claims c, ground arith)

abbrev AllLinked : Tables → ℕ → System → Type 0
AllLinked tables k =
    Kept claims (Linked k) (Tied k) tables (exec-Linked tables k) (Tied-relied tables k)
      (thread_of-Tied k)

new_service-Linked : (tables : Tables) (k : ℕ) → AllLinked tables k new_service
new_service-Linked tables k = ((refl, ground arith, unfold member in ground arith), tt)

step-Linked :
    (tables : Tables) (k : ℕ) (s : System) (e : Event)
    → AllLinked tables k s
    → AllLinked tables k (step tables s e)
step-Linked tables k =
    step-Kept claims (Linked k) (Tied k) tables (exec-Linked tables k) (Tied-relied tables k)
      (thread_of-Tied k)

-- The first operation of a thread, made where all threads agree with the slot.
advance-Allowed :
    (tables : Tables) (s : System) (i : ℕ) (r : Reply) {op : Op} {rest : List Op}
    → thread_at s.threads i ≡ op ∷ rest
    → AllLinked tables s.world.next_context s
    → Allowed op (phase s.world) (phase (advance tables s i r (op ∷ rest)).world)
unfolding advance
advance-Allowed tables s i r {op} {rest} e ((h, sh, f), q) =
    let k = s.world.next_context in
    let n = total_all claims (set_thread s.threads i rest) in
    let (t, behind) =
      subst (All (Tied k s.world)) e (All-thread_at (Tied k s.world) s.threads i q) in
    let slot : claims op + n ≡ bit s.world.activating =
      omega (arith, total_all-set_thread claims s.threads i rest e) in
    (exec-Guaranteed tables k n s.world sh f op r slot t).moves refl

-- One step of the service, as a step of the machine.
noted_step :
    (tables : Tables) (s : System) (i : ℕ) (r : Reply) (h : List (Op × Phase)) (t : List Op)
    → thread_at s.threads i ≡ t
    → AllLinked tables s.world.next_context s
    → IsTrace (phase (advance tables s i r t).world) h
    → IsTrace (phase s.world) (noted (first_of t) (phase (advance tables s i r t).world) h)
unfolding advance
noted_step tables s i r h [] e k rest = rest
noted_step tables s i r h (op ∷ ops) e k rest = (advance-Allowed tables s i r e k, rest)

history-IsTrace_from :
    (tables : Tables) (s : System) (es : List Event)
    → ((k : ℕ) → AllLinked tables k s)
    → IsTrace (phase s.world) (history tables s es)
unfolding history step
history-IsTrace_from tables s [] h = tt
history-IsTrace_from tables s (called c ∷ es) h =
    history-IsTrace_from tables (step tables s (called c)) es
      (λ k. step-Linked tables k s (called c) (h k))
history-IsTrace_from tables s (stepped i r ∷ es) h =
    noted_step tables s i r (history tables (step tables s (stepped i r)) es)
      (thread_at s.threads i) refl (h s.world.next_context)
      (history-IsTrace_from tables (step tables s (stepped i r)) es
        (λ k. step-Linked tables k s (stepped i r) (h k)))

-- However the threads of the service interleave, and whatever is called and answered, the operations
-- made in a run, with the phase behind each, are a trace of the abstract machine from the idle phase:
-- only a request leaves that phase, for an activation that is not cancelled; a cancelled activation
-- stays cancelled; only an activation that is not cancelled connects, by its own completion, through
-- its own client and to its own profile; and only the end of an activation or of a connection leads
-- back to the idle phase.
pub history-IsTrace :
    (tables : Tables) (es : List Event) → IsTrace idle (history tables new_service es)
history-IsTrace tables es = history-IsTrace_from tables new_service es (new_service-Linked tables)
