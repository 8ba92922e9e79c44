-- ===== src/Service/Rely.antt =====
-- The rule by which a predicate on the operations that threads have left holds after every step: the
-- operation that is made establishes it for those behind it, and keeps it for all others.
use network_manager_vpn_plug.Prelude.{
  ℕ, zero, suc, ◌+◌, ◌≤◌, List, [], ◌∷◌, ◌++◌, ◌≡◌, refl, subst, arith, All, All-append,
}
use network_manager_vpn_plug.Go.Unicode.{Tables}
use network_manager_vpn_plug.Service.Exec.{exec}
use network_manager_vpn_plug.Service.Program.{Reply, Op}
use network_manager_vpn_plug.Service.State.{World}
use network_manager_vpn_plug.Service.System.{
  System, Event, Call, called, stepped, thread_of, thread_at, set_thread, advance, step,
}
use network_manager_vpn_plug.Service.Threads.{total, total_all, total_all-set_thread, total-append}

abbrev pub AllThreads {ℓ} : (Op → Type ℓ) → List (List Op) → Type ℓ
AllThreads Q [] = Unit
AllThreads Q (t ∷ ts) = All Q t × AllThreads Q ts

pub All-thread_at {ℓ} :
    (Q : Op → Type ℓ) (ts : List (List Op)) (i : ℕ) → AllThreads Q ts → All Q (thread_at ts i)
All-thread_at Q [] i h = tt
All-thread_at Q (t ∷ ts) zero (h, k) = h
All-thread_at Q (t ∷ ts) (suc i) (h, k) = All-thread_at Q ts i k

AllThreads-set_thread {ℓ} :
    (Q : Op → Type ℓ) (ts : List (List Op)) (i : ℕ) (t : List Op)
    → AllThreads Q ts
    → All Q t
    → AllThreads Q (set_thread ts i t)
AllThreads-set_thread Q [] i t h k = tt
AllThreads-set_thread Q (u ∷ ts) zero t (h, hs) k = (k, hs)
AllThreads-set_thread Q (u ∷ ts) (suc i) t (h, hs) k = (h, AllThreads-set_thread Q ts i t hs k)

module _ (weight : Op → ℕ) where
  -- A change that keeps the predicate for every operation of a weight that the sum allows.
  All-relied {ℓ} :
      (Q Q' : Op → Type ℓ) (n : ℕ) (ops : List Op)
      → ((op : Op) → weight op ≤ n → Q op → Q' op)
      → total weight ops ≤ n
      → All Q ops
      → All Q' ops
  All-relied Q Q' n [] keep h k = tt
  All-relied Q Q' n (op ∷ ops) keep h (q, k) =
      (keep op (omega arith) q, All-relied Q Q' n ops keep (omega arith) k)

  AllThreads-relied {ℓ} :
      (Q Q' : Op → Type ℓ) (n : ℕ) (ts : List (List Op))
      → ((op : Op) → weight op ≤ n → Q op → Q' op)
      → total_all weight ts ≤ n
      → AllThreads Q ts
      → AllThreads Q' ts
  AllThreads-relied Q Q' n [] keep h k = tt
  AllThreads-relied Q Q' n (t ∷ ts) keep h (q, k) =
      (All-relied Q Q' n t keep (omega arith) q, AllThreads-relied Q Q' n ts keep (omega arith) k)

-- What holds of all threads but for one holds of it and of all others.
AllThreads-set_other {ℓ} :
    (Q : Op → Type ℓ) (ts : List (List Op)) (i : ℕ) (t u : List Op)
    → AllThreads Q (set_thread ts i t)
    → All Q u
    → AllThreads Q (set_thread ts i u)
AllThreads-set_other Q [] i t u h k = tt
AllThreads-set_other Q (v ∷ ts) zero t u (h, hs) k = (k, hs)
AllThreads-set_other Q (v ∷ ts) (suc i) t u (h, hs) k = (h, AllThreads-set_other Q ts i t u hs k)

All-set_thread {ℓ} :
    (Q : Op → Type ℓ) (ts : List (List Op)) (i : ℕ) (t : List Op) {op : Op} {rest : List Op}
    → thread_at ts i ≡ op ∷ rest
    → AllThreads Q (set_thread ts i t)
    → All Q t
All-set_thread Q [] i t e h = absurd (cc)
All-set_thread Q (u ∷ ts) zero t e (h, hs) = h
All-set_thread Q (u ∷ ts) (suc i) t e (h, hs) = All-set_thread Q ts i t e hs

module _ {ℓ κ} (weight : Op → ℕ) (P : World → ℕ → Type ℓ) (Q : World → Op → Type κ)
    (tables : Tables)
    (keep : (op : Op) (r : Reply) (w : World) (n : ℕ)
      → P w (weight op + n)
      → Q w op
      → let o = exec tables op r w in
        P o.world (total weight o.next + total weight o.spawned + n)
        × All (Q o.world) o.next
        × All (Q o.world) o.spawned)
    (rely : (op other : Op) (r : Reply) (w : World) (n : ℕ)
      → P w (weight op + n)
      → Q w op
      → weight other ≤ n
      → Q w other
      → Q (exec tables op r w).world other)
    (fresh : (w : World) (c : Call)
      → (total weight (thread_of c) ≡ 0) × All (Q w) (thread_of c)) where
  -- The sum is as `P` says, and `Q` holds of every operation that is left.
  abbrev pub Kept : System → Type (ℓ ⊔ κ)
  Kept s = P s.world (total_all weight s.threads) × AllThreads (Q s.world) s.threads

  advance-Kept :
      (s : System) (i : ℕ) (r : Reply) (t : List Op)
      → thread_at s.threads i ≡ t
      → Kept s
      → Kept (advance tables s i r t)
  unfolding advance
  advance-Kept s i r [] e h = h
  advance-Kept s i r (op ∷ rest) e (p, q) =
      let o = exec tables op r s.world in
      let others = set_thread s.threads i rest in
      let n = total_all weight others in
      let (now, behind) = subst (All (Q s.world)) e (All-thread_at (Q s.world) s.threads i q) in
      let before : total_all weight s.threads ≡ weight op + n =
        omega (arith, total_all-set_thread weight s.threads i rest e) in
      let start : P s.world (weight op + n) = subst (P s.world) before p in
      let (done, next, spawned) = keep op r s.world n start now in
      let after : total weight o.next + total weight o.spawned + n
          ≡ total weight o.spawned + total_all weight (set_thread s.threads i (o.next ++ rest)) =
        omega (
          arith,
          total_all-set_thread weight s.threads i rest e,
          total_all-set_thread weight s.threads i (o.next ++ rest) e,
          total-append weight o.next rest,
        ) in
      let kept : AllThreads (Q o.world) others =
        AllThreads-relied weight (Q s.world) (Q o.world) n others
          (λ other m k. rely op other r s.world n start now m k) (omega arith)
          (AllThreads-set_thread (Q s.world) s.threads i rest q behind) in
      (
        subst (P o.world) after done,
        (
          spawned,
          AllThreads-set_other (Q o.world) s.threads i rest (o.next ++ rest) kept (
              All-append (Q o.world) o.next rest next
                (All-set_thread (Q o.world) s.threads i rest e kept)),
        ),
      )

  pub step-Kept : (s : System) (e : Event) → Kept s → Kept (step tables s e)
  unfolding step
  step-Kept s (called c) (p, q) =
      let (none_left, holds) = fresh s.world c in
      (subst (P s.world) (omega (arith, none_left)) p, (holds, q))
  step-Kept s (stepped i r) h = advance-Kept s i r (thread_at s.threads i) refl h
