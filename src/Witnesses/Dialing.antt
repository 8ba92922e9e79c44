-- ===== src/Witnesses/Dialing.antt =====
-- internal/netbird/daemonclient/grpc.go: a network on which the daemon is up once it has been started.
use network_manager_vpn_plug.Prelude.{
  ℕ, zero, suc, ◌+◌, ◌-◌, ◌≤◌, ◌&&◌, true, false, Bool, [], ◌≡◌, refl, arith, some, none, codes,
  bit,
}
use network_manager_vpn_plug.Go.Decimal.{pos}
use network_manager_vpn_plug.Grpc.Configure.{Options, normalize_address, normalize_options}
use network_manager_vpn_plug.Grpc.Dial.{
  ConnectionState, connecting, ready, Network, dial, new_client, wait_for_ready,
}
use network_manager_vpn_plug.Grpc.Leaks.{Counts, is_ok, new_client_counts}
use network_manager_vpn_plug.Grpc.Stable.{normalize_again}
use network_manager_vpn_plug.Grpc.Wait.{Ended, Patience, wait_for_ready-Ended}

-- Open connections, starts of the daemon, and the changes of state before the time is over.
record Wires : Type 0 where
  opened : ℕ
  started : ℕ
  left : ℕ

abbrev state_after : ℕ → ConnectionState
state_after zero = connecting
state_after (suc n) = ready

abbrev changed : Wires → Bool × Wires
changed w = elim w.left [ zero ↦ (false, w) | suc n ↦ (true, record w { left = n }) ]

abbrev network : Network
network = record {
  World = Wires;
  new_connection = λ address w. (some w.opened, record w { opened = suc w.opened });
  connect = λ c w. w;
  get_state = λ c w. (state_after w.started, w);
  wait_for_state_change = λ d c s w. changed w;
  is_done = λ d w. (true, w);
  close = λ c w. record w { opened = w.opened - 1 };
  starter = true;
  start = λ d service w. (true, record w { started = suc w.started });
}

changed_keeps :
    (w : Wires) → ((changed w).1.opened ≡ w.opened) × ((changed w).1.started ≡ w.started)
changed_keeps w = ground arith

abbrev counts : Counts network
counts = record {
  opened = λ w. w.opened;
  started = λ w. w.started;
  new_connection_opens = λ a w. omega arith;
  new_connection_starts = λ a w. refl;
  close_opens = λ c w. refl;
  close_starts = λ c w. refl;
  start_opens = λ d s w. refl;
  start_starts = λ d s w. omega arith;
  connect_keeps = λ c w. (refl, refl);
  get_state_keeps = λ c w. (refl, refl);
  wait_keeps = λ d c s w. changed_keeps w;
  is_done_keeps = λ d w. (refl, refl);
}

changed_takes : (w : Wires) → (changed w).0 ≡ true → suc (changed w).1.left ≤ w.left
changed_takes w h = ground arith

abbrev patience : Patience network none
patience = record {
  left = λ w. w.left;
  connect_left = λ c w. omega arith;
  get_state_left = λ c w. omega arith;
  change_takes = λ c s w h. changed_takes w h;
}

abbrev wires : Wires
wires = record { opened = 0; started = 0; left = 3 }

abbrev options : Options
options = record {
  address = codes " unix:run/netbird.sock ";
  dial_timeout = pos 0;
  rpc_timeout = pos 0;
  start_daemon = true;
  daemon_service = [];
}

normalize_again_example :
    (normalize_address (normalize_address options.address) ≡ normalize_address options.address)
    × (normalize_options (normalize_options options) ≡ normalize_options options)
    × (dial network 9 none (normalize_options options) wires ≡ dial network 9 none options wires)
normalize_again_example = normalize_again network 9 none options wires

new_client_counts_example :
    ((new_client network 9 none options wires).1.opened
      ≡ 0 + bit (is_ok (new_client network 9 none options wires).0))
    × ((new_client network 9 none options wires).1.started ≤ 0 + bit (true && true))
new_client_counts_example = new_client_counts network counts 9 none options wires

wait_for_ready-Ended_example : Ended network 0 (wait_for_ready network 4 none 0 wires)
wait_for_ready-Ended_example = wait_for_ready-Ended network none patience 4 0 wires (omega arith)
