-- ===== src/Service/Threads.antt =====
-- Sums over the operations that the threads of the service have left, and the rule by which a
-- relation between the world and such a sum holds at every step.
use network_manager_vpn_plug.Prelude.{
  ℕ, zero, suc, ◌+◌, List, [], ◌∷◌, ◌++◌, ◌≡◌, refl, ap, subst, arith,
}
use network_manager_vpn_plug.Go.Unicode.{Tables}
use network_manager_vpn_plug.Service.Exec.{exec}
use network_manager_vpn_plug.Service.Program.{Reply, Op}
use network_manager_vpn_plug.Service.State.{World}
use network_manager_vpn_plug.Service.System.{
  System, Event, Call, called, stepped, thread_of, thread_at, set_thread, advance, step, run,
}

module _ (weight : Op → ℕ) where
  abbrev pub total : List Op → ℕ
  total [] = 0
  total (op ∷ ops) = weight op + total ops

  abbrev pub total_all : List (List Op) → ℕ
  total_all [] = 0
  total_all (t ∷ ts) = total t + total_all ts

  pub total-append : (xs ys : List Op) → total (xs ++ ys) ≡ total xs + total ys
  total-append [] ys = omega arith
  total-append (x ∷ xs) ys = omega (arith, total-append xs ys)

  pub total_all-set_thread :
      (ts : List (List Op)) (i : ℕ) (t : List Op) {op : Op} {rest : List Op}
      → thread_at ts i ≡ op ∷ rest
      → total_all (set_thread ts i t) + total (op ∷ rest) ≡ total_all ts + total t
  total_all-set_thread [] i t h = absurd (cc)
  total_all-set_thread (u ∷ ts) zero t h = omega (arith, ap total h)
  total_all-set_thread (u ∷ ts) (suc i) t h = omega (arith, total_all-set_thread ts i t h)

  module _ {ℓ} (P : World → ℕ → Type ℓ) (tables : Tables)
      (keep : (op : Op) (r : Reply) (w : World) (n : ℕ)
        → P w (weight op + n)
        → P
            (exec tables op r w).world
            (total (exec tables op r w).next + total (exec tables op r w).spawned + n))
      (fresh : (c : Call) → total (thread_of c) ≡ 0) where
    advance-keeps :
        (s : System) (i : ℕ) (r : Reply) (t : List Op)
        → thread_at s.threads i ≡ t
        → P s.world (total_all s.threads)
        → P (advance tables s i r t).world (total_all (advance tables s i r t).threads)
    unfolding advance
    advance-keeps s i r [] h p = p
    advance-keeps s i r (op ∷ rest) h p =
        let o = exec tables op r s.world in
        let others = total_all (set_thread s.threads i rest) in
        let before : total_all s.threads ≡ weight op + others =
          omega (arith, total_all-set_thread s.threads i rest h) in
        let after : total o.next + total o.spawned + others
            ≡ total o.spawned + total_all (set_thread s.threads i (o.next ++ rest)) =
          omega (
            arith,
            total_all-set_thread s.threads i rest h,
            total_all-set_thread s.threads i (o.next ++ rest) h,
            total-append o.next rest,
          ) in
        subst (P o.world) after (keep op r s.world others (subst (P s.world) before p))

    step-keeps :
        (s : System) (e : Event)
        → P s.world (total_all s.threads)
        → P (step tables s e).world (total_all (step tables s e).threads)
    unfolding step
    step-keeps s (called c) p = subst (P s.world) (omega (arith, fresh c)) p
    step-keeps s (stepped i r) p = advance-keeps s i r (thread_at s.threads i) refl p

    -- What every operation keeps holds after every run.
    pub run-keeps :
        (s : System) (es : List Event)
        → P s.world (total_all s.threads)
        → P (run tables s es).world (total_all (run tables s es).threads)
    unfolding run
    run-keeps s [] p = p
    run-keeps s (e ∷ es) p = run-keeps (step tables s e) es (step-keeps s e p)
