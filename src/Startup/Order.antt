-- ===== src/Startup/Order.antt =====
-- cmd/nm-netbird-service/main.go: what has happened when the process serves, and what it can do then.
use network_manager_vpn_plug.Prelude.{
  Bool, true, false, Option, none, some, ◌≡◌, ◌↔◌, ◌∙◌, refl, ap, subst, Text, Result, ok, err,
}
use network_manager_vpn_plug.Go.Unicode.{Tables}
use network_manager_vpn_plug.Grpc.Configure.{Environment}
use network_manager_vpn_plug.Helpers.{ServiceOptions}
use network_manager_vpn_plug.InitSystem.{Starter}
use network_manager_vpn_plug.Startup.{
  Bus, BusKind, Factory, Flags, StartFailure, bus_kind, bus_name, introspectable_interface,
  plugin_interface, properties_interface, service_options, serve, starter_of, export_interfaces,
  and_then, connect_bus, connected, exported, exported_interfaces, owned, M,
}

-- What has succeeded where a step and those behind it have.
and_then_ok :
    {W A B : Type 0} {b : B} {v : W} (x : Result StartFailure A × W) (f : A → M W B)
    → and_then x f ≡ (ok b, v)
    → (a : A) × (u : W) × (x ≡ (ok a, u)) × (f a u ≡ (ok b, v))
and_then_ok (ok a, u) f h = (a, u, refl, h)
and_then_ok (err e, u) f h = absurd (cc)

module _ (bus : Bus) where
  open bus use {World}

  connect_bus_ok :
      (name : Text) (found : Option BusKind) (w v : World) (kind : BusKind)
      → connect_bus bus name found w ≡ (ok kind, v)
      → (found ≡ some kind) × (bus.connect kind w ≡ (true, v))
  connect_bus_ok name none w v kind h = absurd (cc)
  connect_bus_ok name (some k) w v kind h = connected_ok k (bus.connect k w) refl h
    where
      connected_ok :
          (k : BusKind) (x : Bool × World)
          → bus.connect k w ≡ x
          → connected bus k x ≡ (ok kind, v)
          → (some k ≡ some kind) × (bus.connect kind w ≡ (true, v))
      connected_ok k (true, u) e h =
          let same : k ≡ kind = cc in
          (
            ap (λ x. some x) same,
            subst (λ x. bus.connect x w ≡ (true, v)) same (e ∙ ap (λ x. (true, x.1)) h),
          )
      connected_ok k (false, u) e h = absurd (cc)

  exported_ok :
      (name : Text) (x : Bool × World) (v : World)
      → exported bus name x ≡ (ok tt, v)
      → x ≡ (true, v)
  exported_ok name (true, u) v h = ap (λ x. (true, x.1)) h
  exported_ok name (false, u) v h = absurd (cc)

  owned_ok : (x : Option Bool × World) (v : World) → owned bus x ≡ (ok tt, v) → x ≡ (some true, v)
  owned_ok (none, u) v h = absurd (cc)
  owned_ok (some false, u) v h = absurd (cc)
  owned_ok (some true, u) v h = ap (λ x. (some true, x.1)) h

module _ (tables : Tables) (environment : Environment) (bus : Bus) (flags : Flags) where
  open bus use {World}

  -- The process serves: the bus of the flag is connected, a starter is there if one is asked for, the
  -- three interfaces are exported, and then the name is requested and owned; nothing else is done.
  pub record Served (w : World) (p : ServiceOptions Factory) (v : World) : Type 0 where
    pub kind : BusKind
    pub starter : Option Starter
    pub supported : bus_kind tables flags.bus ≡ some kind
    pub configured : starter_of tables flags ≡ ok starter
    pub options : p ≡ service_options environment flags starter
    pub after_connect : World
    pub after_plugin : World
    pub after_properties : World
    pub after_all : World
    pub reachable : bus.connect kind w ≡ (true, after_connect)
    pub plugin : bus.export_interface plugin_interface after_connect ≡ (true, after_plugin)
    pub properties :
        bus.export_interface properties_interface after_plugin ≡ (true, after_properties)
    pub introspectable :
        bus.export_interface introspectable_interface after_properties ≡ (true, after_all)
    pub named : bus.request_name bus_name after_all ≡ (some true, v)

  Served-serve :
      (w v : World) (p : ServiceOptions Factory)
      → Served w p v
      → serve bus tables environment flags w ≡ (ok p, v)
  unfolding serve export_interfaces
  Served-serve w v p s =
      rw
        (
          s.supported, s.reachable, s.configured, s.plugin, s.properties, s.introspectable, s.named,
          s.options,
        )
        refl

  pub serve-Served :
      (w v : World) (p : ServiceOptions Factory)
      → serve bus tables environment flags w ≡ (ok p, v)
      → Served w p v
  unfolding serve export_interfaces
  serve-Served w v p h =
      let (kind, a, h_connect, rest) =
        and_then_ok (connect_bus bus flags.bus (bus_kind tables flags.bus) w) _ h in
      let (supported, reachable) =
        connect_bus_ok bus flags.bus (bus_kind tables flags.bus) w a kind h_connect in
      let (starter, b, h_starter, rest1) = and_then_ok (starter_of tables flags, a) _ rest in
      let (_, c, h_all, rest2) =
        and_then_ok (export_interfaces bus exported_interfaces b) _ rest1 in
      let (_, d, h_plugin, all2) =
        and_then_ok (exported bus plugin_interface (bus.export_interface plugin_interface b)) _
          h_all in
      let (_, e, h_properties, all3) =
        and_then_ok
          (exported bus properties_interface (bus.export_interface properties_interface d)) _
          all2 in
      let (_, f, h_introspectable, all4) =
        and_then_ok
          (exported bus introspectable_interface (bus.export_interface introspectable_interface e))
          _ all3 in
      let (_, g, h_owned, last) = and_then_ok (owned bus (bus.request_name bus_name c)) _ rest2 in
      let all_done : f ≡ c = ap (λ x. x.1) all4 in
      let here : g ≡ v = ap (λ x. x.1) last in
      let same_options : ok (service_options environment flags starter) ≡ ok p =
        ap (λ x. x.0) last in
      record {
        kind = kind;
        starter = starter;
        supported = supported;
        configured = ap (λ x. x.0) h_starter;
        options = cc;
        after_connect = b;
        after_plugin = d;
        after_properties = e;
        after_all = c;
        reachable = reachable ∙ ap (λ x. (true, x.1)) h_starter;
        plugin = exported_ok bus plugin_interface _ d h_plugin;
        properties = exported_ok bus properties_interface _ e h_properties;
        introspectable =
            exported_ok bus introspectable_interface _ f h_introspectable
            ∙ ap (λ x. (true, x)) all_done;
        named = owned_ok bus _ g h_owned ∙ ap (λ x. (some true, x)) here;
      }

  -- The process serves, with these options, exactly if the flag names a bus that can be reached, there
  -- is a starter where the daemon may be started, the interfaces of the plugin, of its properties and
  -- of its introspection are exported in this order, and after them the name is requested and owned;
  -- the bus sees no other call.
  pub serve_iff :
      (w v : World) (p : ServiceOptions Factory)
      → (serve bus tables environment flags w ≡ (ok p, v)) ↔ Served w p v
  serve_iff w v p = (serve-Served w v p, Served-serve w v p)
