-- ===== src/Startup/Starters.antt =====
-- cmd/nm-netbird-service/main.go with internal/netbird/daemonclient/grpc.go: the clients of a process
-- that serves.
use network_manager_vpn_plug.Prelude.{
  ℕ, Bool, true, false, Option, none, some, ◌≡◌, ◌≢◌, ◌∙◌, refl, sym, ap, subst, is_some, Text,
  Result, ok, err, Bool-cases, inl, inr,
}
use network_manager_vpn_plug.Go.Unicode.{Tables}
use network_manager_vpn_plug.Grpc.Configure.{Environment, Options, normalize_options}
use network_manager_vpn_plug.Grpc.Dial.{
  Deadline, DialError, GrpcClient, Network, after_dial, after_start, dial, new_client, no_starter,
  retried,
}
use network_manager_vpn_plug.Helpers.{ServiceOptions}
use network_manager_vpn_plug.InitSystem.{Starter, new_starter}
use network_manager_vpn_plug.Startup.{
  Bus, Factory, configured, Flags, daemon_options, new_factory, service_options, serve, starter_of,
}
use network_manager_vpn_plug.Startup.Order.{serve-Served}

configured_starter :
    (name : Text) (o starter : Option Starter)
    → configured name o ≡ ok starter
    → is_some starter ≡ true
configured_starter name none starter h = absurd (cc)
configured_starter name (some s) starter h =
    let e : some s ≡ starter = cc in subst (λ x. is_some x ≡ true) e refl

starter_of_on :
    (tables : Tables) (flags : Flags)
    → flags.start_daemon ≡ true
    → starter_of tables flags
      ≡ configured flags.daemon_init_system (new_starter tables flags.daemon_init_system)
unfolding starter_of
starter_of_on tables flags on = simp on refl

-- The factory of a service is made of the flags and the starter.
service_options-starter :
    (environment : Environment) (flags : Flags) (starter : Option Starter) (factory : Factory)
    → (service_options environment flags starter).client_factory ≡ some factory
    → factory.starter ≡ starter
unfolding service_options new_factory
service_options-starter environment flags starter factory h =
    let e : new_factory (daemon_options flags) starter ≡ factory = cc in ap (λ f. f.starter) (sym e)

module _ (network : Network) (fuel : ℕ) (d : Deadline) (o : Options) (address : Text)
    (cause : DialError) (has_starter : o.start_daemon ≡ true → network.starter ≡ true) where
  open network use {World}

  retried_fails :
      (x : Result DialError GrpcClient × World)
      → (retried network o x).0 ≢ err (no_starter address cause)
  unfolding retried
  retried_fails (ok c, u) h = absurd (cc)
  retried_fails (err e, u) h = absurd (cc)

  after_start_fails :
      (e : DialError) (x : Bool × World)
      → (after_start network fuel d o e x).0 ≢ err (no_starter address cause)
  unfolding after_start
  after_start_fails e (false, w) h = absurd (cc)
  after_start_fails e (true, w) h = retried_fails (dial network fuel d o w) h

  after_dial_fails :
      (x : Result DialError GrpcClient × World)
      → (after_dial network fuel d o x).0 ≢ err (no_starter address cause)
  unfolding after_dial
  after_dial_fails (ok c, w) = λ h. absurd (cc)
  after_dial_fails (err e, w) = elim (Bool-cases o.start_daemon) [
    | inr off ↦ rw off (λ h. absurd (cc))
    | inl on ↦ simp (on, has_starter on) (after_start_fails e (network.start d o.daemon_service w))
  ]

module _ (tables : Tables) (environment : Environment) (bus : Bus) (flags : Flags) where
  open bus use {World}

  -- A process that serves never fails to make a client for want of a starter: its factory has one
  -- wherever it may start the daemon.
  pub serving_has_starter :
      (w v : World) (p : ServiceOptions Factory) (factory : Factory) (network : Network) (fuel : ℕ)
      (d : Deadline) (u : network.World) (address : Text) (cause : DialError)
      → serve bus tables environment flags w ≡ (ok p, v)
      → p.client_factory ≡ some factory
      → network.starter ≡ is_some factory.starter
      → (new_client network fuel d (daemon_options flags) u).0 ≢ err (no_starter address cause)
  unfolding new_client normalize_options
  serving_has_starter w v p factory network fuel d u address cause h given agrees =
      let s = serve-Served tables environment bus flags w v p h in
      let o = normalize_options (daemon_options flags) in
      let same : factory.starter ≡ s.starter =
        service_options-starter environment flags s.starter factory
          (ap (λ q. q.client_factory) (sym s.options) ∙ given) in
      after_dial_fails network fuel d o address cause
        (λ on.
          agrees
          ∙ ap is_some same
          ∙ configured_starter flags.daemon_init_system
              (new_starter tables flags.daemon_init_system) s.starter
              (sym (starter_of_on tables flags on) ∙ s.configured))
        (dial network fuel d o u)
