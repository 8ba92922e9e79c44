-- ===== src/Service/Monitor.antt =====
-- internal/nmplugin/service.go: the status monitor of a session.
use network_manager_vpn_plug.Prelude.{
  ℕ, Bool, true, false, List, [], ◌∷◌, ◌++◌, Option, none, ◌≡◌, arith,
}
use network_manager_vpn_plug.Go.Unicode.{Tables}
use network_manager_vpn_plug.Daemon.Messages.{StatusResponse}
use network_manager_vpn_plug.Status.{map_status}
use network_manager_vpn_plug.Status.Words
use network_manager_vpn_plug.Service.Exec.{exec}
use network_manager_vpn_plug.Service.Locked.{set_state_value}
use network_manager_vpn_plug.Service.Program.{
  Reply, proceed, refused, status_is, Op, monitor, poll, fail_session,
}
use network_manager_vpn_plug.Service.State.{World, started, stopped, is_cancelled}
use network_manager_vpn_plug.Service.System.{System, stepped, run}

-- A thread alone: its operations, one for each answer, and what is left of it.
unfoldable pub alone : Tables → List Op → List Reply → World → List Op × World
alone tables ops [] w = (ops, w)
alone tables [] (r ∷ rs) w = ([], w)
alone tables (op ∷ ops) (r ∷ rs) w =
    let o = exec tables op r w in alone tables (o.next ++ ops) rs o.world

-- The answers of one failed round of the monitor: its test, the failed call, the threshold, the wait.
abbrev pub failed_round : Bool → List Reply
failed_round e = proceed ∷ refused e ∷ proceed ∷ proceed ∷ []

-- The monitor of a session that is not cancelled counts failed calls: it polls again after two in a
-- row, and after the third in a row it fails the session.
pub monitor_gives_up :
    (tables : Tables) (context client session : ℕ) (w : World) (e₁ e₂ e₃ : Bool)
    → is_cancelled context w ≡ false
    → (alone tables (monitor context client session 0 ∷ []) (failed_round e₁ ++ failed_round e₂) w
        ≡ (monitor context client session 2 ∷ [], w))
      × (alone tables
            (monitor context client session 0 ∷ [])
            (failed_round e₁ ++ failed_round e₂ ++ failed_round e₃)
            w
          ≡ alone tables (fail_session session ∷ []) (proceed ∷ []) w)
unfolding alone exec
monitor_gives_up tables context client session w e₁ e₂ e₃ live = (ground arith, ground arith)

-- A monitor whose session was ended while its call was under way still publishes what the call says:
-- in a service that `Disconnect` has stopped, an answer that says connected makes the state `Started`
-- although there is no client.
pub stale_monitor_publishes :
    (tables : Tables) (context client session failures : ℕ) (w : World)
    (resp : Option StatusResponse)
    → is_cancelled context w ≡ true
    → w.state ≡ stopped
    → w.client ≡ none
    → (map_status tables resp).state ≡ Words.State.connected
    → let s : System = record {
      world = w;
      threads = (poll context client session failures ∷ []) ∷ [];
    } in
      let after = (run tables s (stepped 0 (status_is resp) ∷ stepped 1 proceed ∷ [])).world in
      (after.state ≡ started) × (after.client ≡ none)
unfolding run exec set_state_value
stale_monitor_publishes tables context client session failures w resp dead at_rest idle up =
    simp up (ground arith)
