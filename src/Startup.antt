-- ===== src/Startup.antt =====
-- cmd/nm-netbird-service/main.go and `Service.Export` of internal/nmplugin/service.go: how the process
-- comes to serve. The flags are those that the flag package has read; the bus is a parameter.
pub mod Order
pub mod Starters
use network_manager_vpn_plug.Prelude.{
  Bool, true, false, List, [], ◌∷◌, Option, none, some, if◌then◌else◌, Text, codes, text_eq, Result,
  ok, err,
}
use network_manager_vpn_plug.Go.Decimal.{ℤ, pos}
use network_manager_vpn_plug.Go.Unicode.{Tables}
use network_manager_vpn_plug.Grpc.Configure.{
  Environment, Options, default_options_from_env, env_string_default, normalize_options,
}
use network_manager_vpn_plug.Helpers.{ServiceOptions, normalize_service_options}
use network_manager_vpn_plug.InitSystem.{Starter, new_starter, normalize_name}

-- The flags of the command.
pub record Flags : Type 0 where
  pub bus : Text
  pub debug : Bool
  pub daemon_address : Text
  pub start_daemon : Bool
  pub daemon_init_system : Text
  pub daemon_service : Text
  pub daemon_dial_timeout : ℤ
  pub daemon_rpc_timeout : ℤ
  pub activation_timeout : ℤ
  pub sso_wait_timeout : ℤ

-- The flags of a command line that sets none of them.
unfoldable pub default_flags : Environment → Flags
unfolding default_options_from_env env_string_default
default_flags environment =
    let o = default_options_from_env environment in
    record {
      bus = codes "system";
      debug = false;
      daemon_address = o.address;
      start_daemon = o.start_daemon;
      daemon_init_system =
          env_string_default environment (codes "NM_NETBIRD_DAEMON_INIT_SYSTEM") (codes "auto");
      daemon_service = o.daemon_service;
      daemon_dial_timeout = o.dial_timeout;
      daemon_rpc_timeout = o.rpc_timeout;
      activation_timeout = pos 90_000_000_000;
      sso_wait_timeout = pos 600_000_000_000;
    }

pub data BusKind : Type 0 where
  session_bus system_bus : BusKind

-- What ends the process before it serves: `logger.Fatalf` in `main`.
pub data StartFailure : Type 0 where
  unsupported_bus : Text → StartFailure
  bus_unreachable : BusKind → StartFailure
  unsupported_init_system not_exported : Text → StartFailure
  name_refused name_owned : StartFailure

-- `dbus.SessionBus` and `dbus.SystemBus`, `conn.Export`, and `conn.RequestName`, which fails or says
-- whether the process is the primary owner.
pub record Bus : Type 1 where
  pub World : Type 0
  pub connect : BusKind → World → Bool × World
  pub export_interface : Text → World → Bool × World
  pub request_name : Text → World → Option Bool × World

abbrev pub bus_name : Text
bus_name = codes "org.freedesktop.NetworkManager.netbird"

abbrev pub plugin_interface : Text
plugin_interface = codes "org.freedesktop.NetworkManager.VPN.Plugin"

abbrev pub properties_interface : Text
properties_interface = codes "org.freedesktop.DBus.Properties"

abbrev pub introspectable_interface : Text
introspectable_interface = codes "org.freedesktop.DBus.Introspectable"

abbrev pub exported_interfaces : List Text
exported_interfaces = plugin_interface ∷ properties_interface ∷ introspectable_interface ∷ []

-- The factory of clients: its options, completed, and its starter.
pub record Factory : Type 0 where
  pub options : Options
  pub starter : Option Starter

-- `NewFactory`.
unfoldable pub new_factory : Options → Option Starter → Factory
unfolding normalize_options
new_factory o starter = record { options = normalize_options o; starter = starter }

-- `daemonclient.Options` as `main` fills it.
abbrev pub daemon_options : Flags → Options
daemon_options flags = record {
  address = flags.daemon_address;
  dial_timeout = flags.daemon_dial_timeout;
  rpc_timeout = flags.daemon_rpc_timeout;
  start_daemon = flags.start_daemon;
  daemon_service = flags.daemon_service;
}

-- `nmplugin.ServiceOptions` as `main` fills it.
abbrev pub given_options : Flags → Factory → ServiceOptions Factory
given_options flags factory = record {
  client_factory = some factory;
  activation_timeout = flags.activation_timeout;
  sso_wait_timeout = flags.sso_wait_timeout;
  operation_timeout = pos 0;
  ready_poll_interval = pos 0;
  status_poll_interval = pos 0;
  status_call_timeout = pos 0;
}

-- `NewService` with the options that `main` gives; the environment's factory would stand in for a
-- factory that is not given.
unfoldable pub service_options : Environment → Flags → Option Starter → ServiceOptions Factory
unfolding new_factory default_options_from_env normalize_service_options
service_options environment flags starter =
    normalize_service_options (new_factory (default_options_from_env environment) none)
      (given_options flags (new_factory (daemon_options flags) starter))

abbrev pub M : Type 0 → Type 0 → Type 0
M W A = W → Result StartFailure A × W

-- A step whose failure ends the process.
abbrev pub and_then :
    {W A B : Type 0} → Result StartFailure A × W → (A → M W B) → Result StartFailure B × W
and_then (ok a, w) f = f a w
and_then (err e, w) f = (err e, w)

abbrev configured : Text → Option Starter → Result StartFailure (Option Starter)
configured name none = err (unsupported_init_system name)
configured name (some s) = ok (some s)

-- The starter, where the process may start the daemon.
unfoldable pub starter_of : Tables → Flags → Result StartFailure (Option Starter)
starter_of tables flags =
    if flags.start_daemon
    then configured flags.daemon_init_system (new_starter tables flags.daemon_init_system)
    else ok none

-- The bus that the flag names.
unfoldable pub bus_kind : Tables → Text → Option BusKind
unfolding normalize_name text_eq
bus_kind tables name =
    if text_eq (normalize_name tables name) (codes "session")
    then some session_bus
    else if text_eq (normalize_name tables name) (codes "system")
    then some system_bus
    else none

module _ (bus : Bus) where
  open bus use {World}

  abbrev connected : BusKind → Bool × World → Result StartFailure BusKind × World
  connected kind (true, w) = (ok kind, w)
  connected kind (false, w) = (err (bus_unreachable kind), w)

  -- `connectBus`.
  abbrev pub connect_bus : Text → Option BusKind → M World BusKind
  connect_bus name none w = (err (unsupported_bus name), w)
  connect_bus name (some kind) w = connected kind (bus.connect kind w)

  abbrev exported : Text → Bool × World → Result StartFailure (Unit {0}) × World
  exported name (true, w) = (ok tt, w)
  exported name (false, w) = (err (not_exported name), w)

  -- `Service.Export`.
  unfoldable pub export_interfaces : List Text → M World (Unit {0})
  export_interfaces [] w = (ok tt, w)
  export_interfaces (name ∷ names) w =
      and_then (exported name (bus.export_interface name w)) (λ _. export_interfaces names)

  abbrev owned : Option Bool × World → Result StartFailure (Unit {0}) × World
  owned (none, w) = (err name_refused, w)
  owned (some false, w) = (err name_owned, w)
  owned (some true, w) = (ok tt, w)

  -- `main` up to where it serves, with the options of the service.
  unfoldable pub serve : Tables → Environment → Flags → M World (ServiceOptions Factory)
  unfolding export_interfaces
  serve tables environment flags w =
      and_then (connect_bus flags.bus (bus_kind tables flags.bus) w) (λ _ u.
        and_then (starter_of tables flags, u)
          (λ starter v. and_then (export_interfaces exported_interfaces v) (λ _ x.
            and_then (owned (bus.request_name bus_name x))
              (λ _ y. (ok (service_options environment flags starter), y)))))
