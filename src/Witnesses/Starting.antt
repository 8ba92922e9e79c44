-- ===== src/Witnesses/Starting.antt =====
-- cmd/nm-netbird-service/main.go: a process on a bus that notes the calls, and a machine on which the
-- daemon does not come up.
use network_manager_vpn_plug.Prelude.{
  ℕ, true, false, List, [], ◌∷◌, none, some, ◌≡◌, ◌≢◌, ◌↔◌, refl, codes, Text, ok, err, text_eq,
}
use network_manager_vpn_plug.Go.Decimal.{pos}
use network_manager_vpn_plug.Grpc.Configure.{Environment}
use network_manager_vpn_plug.Grpc.Dial.{Network, idle, cannot_create, new_client, no_starter}
use network_manager_vpn_plug.InitSystem.{new_starter, normalize_name, systemd_starter}
use network_manager_vpn_plug.Startup.{
  Bus, Flags, bus_kind, bus_name, daemon_options, introspectable_interface, new_factory,
  plugin_interface, properties_interface, service_options, serve, starter_of,
}
use network_manager_vpn_plug.Startup.Order.{Served, serve_iff}
use network_manager_vpn_plug.Startup.Starters.{serving_has_starter}
use network_manager_vpn_plug.Status.Words.{ascii_only}

abbrev environment : Environment
environment = record { getenv = λ key. []; parse_duration = λ s. none }

-- The daemon may be started, by systemd.
abbrev flags : Flags
flags = record {
  bus = codes "system";
  debug = false;
  daemon_address = codes "unix:///var/run/netbird.sock";
  start_daemon = true;
  daemon_init_system = codes " Systemd";
  daemon_service = codes "netbird";
  daemon_dial_timeout = pos 0;
  daemon_rpc_timeout = pos 0;
  activation_timeout = pos 0;
  sso_wait_timeout = pos 0;
}

-- What was exported and requested, the latest first.
abbrev bus : Bus
bus = record {
  World = List Text;
  connect = λ kind w. (true, w);
  export_interface = λ name w. (true, name ∷ w);
  request_name = λ name w. (some true, name ∷ w);
}

abbrev calls : List Text
calls = bus_name ∷ introspectable_interface ∷ properties_interface ∷ plugin_interface ∷ []

served :
    serve bus ascii_only environment flags []
    ≡ (ok (service_options environment flags (some (systemd_starter []))), calls)
unfolding serve bus_kind starter_of new_starter normalize_name text_eq
served = refl

serve_iff_example :
    (serve bus ascii_only environment flags []
      ≡ (ok (service_options environment flags (some (systemd_starter []))), calls))
    ↔ Served ascii_only environment bus flags []
        (service_options environment flags (some (systemd_starter [])))
        calls
serve_iff_example =
    serve_iff ascii_only environment bus flags [] calls
      (service_options environment flags (some (systemd_starter [])))

-- No connection can be made.
abbrev network : Network
network = record {
  World = ℕ;
  new_connection = λ address w. (none, w);
  connect = λ c w. w;
  get_state = λ c w. (idle, w);
  wait_for_state_change = λ d c s w. (false, w);
  is_done = λ d w. (true, w);
  close = λ c w. w;
  starter = true;
  start = λ d service w. (true, w);
}

serving_has_starter_example :
    (new_client network 9 none (daemon_options flags) 0).0
    ≢ err (no_starter flags.daemon_address (cannot_create flags.daemon_address))
unfolding service_options new_factory
serving_has_starter_example =
    serving_has_starter ascii_only environment bus flags [] calls
      (service_options environment flags (some (systemd_starter [])))
      (new_factory (daemon_options flags) (some (systemd_starter []))) network 9 none 0
      flags.daemon_address (cannot_create flags.daemon_address) served refl refl
