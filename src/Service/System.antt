-- ===== src/Service/System.antt =====
-- internal/nmplugin: the whole service, any number of threads over one world. NetworkManager calls
-- methods at any time, and any thread may make the next step.
use network_manager_vpn_plug.Prelude.{ℕ, zero, suc, true, false, List, [], ◌∷◌, ◌++◌, none}
use network_manager_vpn_plug.Go.Unicode.{Tables}
use network_manager_vpn_plug.Daemon.{no_profile}
use network_manager_vpn_plug.Settings.Values.{ConnectionSettings, VariantMap}
use network_manager_vpn_plug.Service.Exec.{exec}
use network_manager_vpn_plug.Service.Program.{
  Reply, Op, reserve, disconnect, set_failure, new_secrets,
}
use network_manager_vpn_plug.Service.State.{World, init}

pub record System : Type 0 where
  pub world : World
  pub threads : List (List Op)

-- The methods that NetworkManager calls.
pub data Call : Type 0 where
  connect : ConnectionSettings → Call
  connect_interactive : ConnectionSettings → VariantMap → Call
  disconnect_call set_failure_call : Call
  new_secrets_call : ConnectionSettings → Call

-- The thread of a call: `Connect`, `ConnectInteractive`, `Disconnect`, `SetFailure`, `NewSecrets`.
abbrev pub thread_of : Call → List Op
thread_of (connect connection) = reserve connection [] false ∷ []
thread_of (connect_interactive connection details) = reserve connection details true ∷ []
thread_of disconnect_call = disconnect ∷ []
thread_of set_failure_call = set_failure ∷ []
thread_of (new_secrets_call connection) = new_secrets connection ∷ []

-- A call arrives, or the thread with this number makes its next step and is told this.
pub data Event : Type 0 where
  called : Call → Event
  stepped : ℕ → Reply → Event

-- The thread with this number, empty where there is none.
abbrev pub thread_at : List (List Op) → ℕ → List Op
thread_at [] i = []
thread_at (t ∷ ts) zero = t
thread_at (t ∷ ts) (suc i) = thread_at ts i

abbrev pub set_thread : List (List Op) → ℕ → List Op → List (List Op)
set_thread [] i t = []
set_thread (u ∷ ts) zero t = t ∷ ts
set_thread (u ∷ ts) (suc i) t = u ∷ set_thread ts i t

-- `NewService`.
abbrev pub new_world : World
new_world = record {
  state = init;
  activating = false;
  activation_cancel = none;
  monitor_cancel = none;
  client = none;
  active_profile = no_profile;
  session_id = 0;
  activation_id = 0;
  prompt = none;
  cancelled = [];
  delivered = [];
  closed = [];
  messages = [];
  next_context = 0;
  next_client = 0;
  next_channel = 0;
}

abbrev pub new_service : System
new_service = record { world = new_world; threads = [] }

module _ (tables : Tables) where
  -- The thread `i` makes its first operation.
  unfoldable pub advance : System → ℕ → Reply → List Op → System
  advance s i r [] = s
  advance s i r (op ∷ rest) =
      let o = exec tables op r s.world in
      record { world = o.world; threads = o.spawned ∷ set_thread s.threads i (o.next ++ rest) }

  unfoldable pub step : System → Event → System
  unfolding advance
  step s (called c) = record s { threads = thread_of c ∷ s.threads }
  step s (stepped i r) = advance s i r (thread_at s.threads i)

  unfoldable pub run : System → List Event → System
  unfolding step
  run s [] = s
  run s (e ∷ es) = run (step s e) es
