-- ===== src/Grpc/Leaks.antt =====
-- internal/netbird/daemonclient/grpc.go: what dialing does to the network, and when it ends. The laws
-- of the calls say what gRPC and the init system document.
use network_manager_vpn_plug.Prelude.{
  ℕ, zero, suc, ◌+◌, ◌-◌, ◌≤◌, Bool, true, false, ◌&&◌, Option, none, some, ◌≡◌, refl, arith, Text,
  Result, ok, err, bit, is_some,
}
use network_manager_vpn_plug.Grpc.Configure.{Options, normalize_address, normalize_options}
use network_manager_vpn_plug.Grpc.Dial.{
  ConnectionState, WaitError, DialError, FactoryError, Deadline, Network, GrpcClient, wait_rounds,
  wait_for_ready, dialed, dial_connection, dial, retried, after_start, after_dial, new_client,
}

-- Counts of what the outside world holds: connections that are open, and starts of the daemon.
-- A new connection is open until it is closed, and nothing else opens, closes or starts.
pub record Counts (network : Network) : Type 0 where
  pub opened : network.World → ℕ
  pub started : network.World → ℕ
  pub new_connection_opens :
      (a : Text) (w : network.World)
      → opened (network.new_connection a w).1
        ≡ opened w + bit (is_some (network.new_connection a w).0)
  pub new_connection_starts :
      (a : Text) (w : network.World) → started (network.new_connection a w).1 ≡ started w
  pub close_opens : (c : ℕ) (w : network.World) → opened (network.close c w) ≡ opened w - 1
  pub close_starts : (c : ℕ) (w : network.World) → started (network.close c w) ≡ started w
  pub start_opens :
      (d : Deadline) (s : Text) (w : network.World) → opened (network.start d s w).1 ≡ opened w
  pub start_starts :
      (d : Deadline) (s : Text) (w : network.World)
      → started (network.start d s w).1 ≡ started w + 1
  pub connect_keeps :
      (c : ℕ) (w : network.World)
      → (opened (network.connect c w) ≡ opened w) × (started (network.connect c w) ≡ started w)
  pub get_state_keeps :
      (c : ℕ) (w : network.World)
      → (opened (network.get_state c w).1 ≡ opened w)
        × (started (network.get_state c w).1 ≡ started w)
  pub wait_keeps :
      (d : Deadline) (c : ℕ) (s : ConnectionState) (w : network.World)
      → (opened (network.wait_for_state_change d c s w).1 ≡ opened w)
        × (started (network.wait_for_state_change d c s w).1 ≡ started w)
  pub is_done_keeps :
      (d : Deadline) (w : network.World)
      → (opened (network.is_done d w).1 ≡ opened w) × (started (network.is_done d w).1 ≡ started w)

abbrev pub is_ok {ℓ κ} : {E : Type ℓ} {A : Type κ} → Result E A → Bool
is_ok (ok a) = true
is_ok (err e) = false

module _ (network : Network) (k : Counts network) where
  open network use {World}

  abbrev Kept : World → World → Type 0
  Kept w v = (k.opened v ≡ k.opened w) × (k.started v ≡ k.started w)

  rounds_keep :
      (fuel : ℕ) (d : Deadline) (c : ℕ) (w : World) → Kept w (wait_rounds network fuel d c w).1
  unfolding wait_rounds
  rounds_keep zero d c w = (refl, refl)
  rounds_keep (suc fuel) d c w =
      let s = network.get_state c w in
      let u = network.wait_for_state_change d c s.0 s.1 in
      ground (
        arith,
        k.get_state_keeps c w,
        k.wait_keeps d c s.0 s.1,
        k.is_done_keeps d u.1,
        rounds_keep fuel d c u.1,
      )

  dialed_opens :
      (o : Options) (a : Text) (c : ℕ) (w v : World) (r : Result WaitError (Unit {0}))
      → k.opened v ≡ suc (k.opened w)
      → (k.opened (dialed network o a c (r, v)).1
          ≡ k.opened w + bit (is_ok (dialed network o a c (r, v)).0))
        × (k.started (dialed network o a c (r, v)).1 ≡ k.started v)
  unfolding dialed
  dialed_opens o a c w v (ok _) h = omega arith
  dialed_opens o a c w v (err e) h = omega (arith, k.close_opens c v, k.close_starts c v)

  abbrev Counted : World → Result DialError GrpcClient × World → Type 0
  Counted w x = (k.opened x.1 ≡ k.opened w + bit (is_ok x.0)) × (k.started x.1 ≡ k.started w)

  dial_connection_counts :
      (fuel : ℕ) (d : Deadline) (o : Options) (a : Text) (w : World) (x : Option ℕ × World)
      → k.opened x.1 ≡ k.opened w + bit (is_some x.0)
      → k.started x.1 ≡ k.started w
      → Counted w (dial_connection network fuel d o a x)
  unfolding dial_connection wait_for_ready
  dial_connection_counts fuel d o a w (none, v) h t = omega arith
  dial_connection_counts fuel d o a w (some c, v) h t =
      let u = network.connect c v in
      let r = wait_rounds network fuel d c u in
      let f : Kept u r.1 = rounds_keep fuel d c u in
      let g = k.connect_keeps c v in
      let e = dialed_opens o a c w r.1 r.0 (omega arith) in omega (arith, e, f, g)

  dial_counts :
      (fuel : ℕ) (d : Deadline) (o : Options) (w : World) → Counted w (dial network fuel d o w)
  unfolding dial
  dial_counts fuel d o w =
      let n = normalize_options o in
      let a = normalize_address n.address in
      dial_connection_counts fuel _ n a w (network.new_connection a w) (k.new_connection_opens a w)
        (k.new_connection_starts a w)

  abbrev Held : World → ℕ → Result FactoryError GrpcClient × World → Type 0
  Held w starts x =
      (k.opened x.1 ≡ k.opened w + bit (is_ok x.0)) × (k.started x.1 ≤ k.started w + starts)

  retried_counts :
      (o : Options) (w v : World) (x : Result DialError GrpcClient × World)
      → k.opened v ≡ k.opened w
      → k.started v ≡ k.started w + 1
      → Counted v x
      → Held w 1 (retried network o x)
  unfolding retried
  retried_counts o w v (ok c, u) h t (f, g) = omega arith
  retried_counts o w v (err e, u) h t (f, g) = omega arith

  after_start_counts :
      (fuel : ℕ) (d : Deadline) (o : Options) (e : DialError) (w : World) (x : Bool × World)
      → k.opened x.1 ≡ k.opened w
      → k.started x.1 ≡ k.started w + 1
      → Held w 1 (after_start network fuel d o e x)
  unfolding after_start
  after_start_counts fuel d o e w (false, v) h t = omega arith
  after_start_counts fuel d o e w (true, v) h t =
      retried_counts o w v (dial network fuel d o v) h t (dial_counts fuel d o v)

  after_dial_counts :
      (fuel : ℕ) (d : Deadline) (o : Options) (w : World) (x : Result DialError GrpcClient × World)
      → Counted w x
      → Held w (bit (o.start_daemon && network.starter)) (after_dial network fuel d o x)
  unfolding after_dial
  after_dial_counts fuel d o w (ok c, v) (f, g) = omega arith
  after_dial_counts fuel d o w (err e, v) (f, g) =
      let s = network.start d o.daemon_service v in
      ground (
        arith,
        k.start_opens d o.daemon_service v,
        k.start_starts d o.daemon_service v,
        after_start_counts fuel d o e v s,
      )

  -- `NewClient` leaves one more connection open if it returns a client and none more if it fails, and
  -- it asks the init system for the daemon at most once, and never unless that is enabled and
  -- configured.
  pub new_client_counts :
      (fuel : ℕ) (d : Deadline) (o : Options) (w : World)
      → (k.opened (new_client network fuel d o w).1
          ≡ k.opened w + bit (is_ok (new_client network fuel d o w).0))
        × (k.started (new_client network fuel d o w).1
            ≤ k.started w + bit (o.start_daemon && network.starter))
  unfolding new_client normalize_options
  new_client_counts fuel d o w =
      let n = normalize_options o in
      after_dial_counts fuel d n w (dial network fuel d n w) (dial_counts fuel d n w)
