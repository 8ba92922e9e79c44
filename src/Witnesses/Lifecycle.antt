-- ===== src/Witnesses/Lifecycle.antt =====
-- internal/nmplugin: runs of the service.
use network_manager_vpn_plug.Prelude.{
  ◌+◌, ◌≤◌, true, false, List, [], ◌∷◌, ◌++◌, none, some, ◌≡◌, refl, arith, bit, codes, text_eq,
  if◌then◌else◌, ◌==◌,
}
use network_manager_vpn_plug.Daemon.{no_profile}
use network_manager_vpn_plug.Daemon.Messages.{StatusResponse}
use network_manager_vpn_plug.Go.Maps.{lookup, sort_keys}
use network_manager_vpn_plug.Settings.Parse.{
  ActivationSettings, is_auth_mode_valid, merge_details, parse_activation_settings,
}
use network_manager_vpn_plug.Service.Cancelled.{cancelled_never_completes}
use network_manager_vpn_plug.Service.Clients.{closed_once, held, no_client_left, times}
use network_manager_vpn_plug.Service.Locked.{
  complete_activation, disconnect_locked, handle_new_secrets_locked, new_secrets_locked,
  set_failure_locked, reserve_activation, set_state_value, finish_failed_activation,
  clear_prompt_for_activation,
}
use network_manager_vpn_plug.Service.Exec.{exec}
use network_manager_vpn_plug.Service.Monitor.{
  alone, failed_round, monitor_gives_up, stale_monitor_publishes,
}
use network_manager_vpn_plug.Service.Program.{
  proceed, refused, status_is, monitor, poll, fail_session,
}
use network_manager_vpn_plug.Service.Prompts.{format_activation_id}
use network_manager_vpn_plug.Service.Shared.{Shared}
use network_manager_vpn_plug.Service.Slot.{claims, one_activation, run-Shared}
use network_manager_vpn_plug.Service.Stale.{new_secrets_stale}
use network_manager_vpn_plug.Service.State.{
  ActivationPrompt, World, setup_key, started, stopped, member,
}
use network_manager_vpn_plug.Service.System.{
  System, Event, connect, connect_interactive, called, stepped, new_world, new_service, run,
}
use network_manager_vpn_plug.Service.Threads.{total_all}
use network_manager_vpn_plug.Status.{full_status_failure, map_status}
use network_manager_vpn_plug.Status.Words.{ascii_only, map_status_string}

-- A connection is activated up to its client, whose first call fails.
abbrev failing : List Event
failing =
    called (connect_interactive [] [])
    ∷ stepped 0 proceed
    ∷ stepped 1 proceed
    ∷ stepped 2 proceed
    ∷ stepped 3 proceed
    ∷ stepped 4 proceed
    ∷ stepped 0 proceed
    ∷ stepped 1 proceed
    ∷ stepped 2 (refused false)
    ∷ stepped 3 proceed
    ∷ stepped 4 proceed
    ∷ stepped 5 proceed
    ∷ stepped 6 proceed
    ∷ stepped 7 proceed
    ∷ stepped 8 proceed
    ∷ stepped 9 proceed
    ∷ stepped 10 proceed
    ∷ stepped 11 proceed
    ∷ stepped 12 proceed
    ∷ stepped 13 proceed
    ∷ stepped 14 proceed
    ∷ []

one_activation_example :
    total_all claims (run ascii_only new_service failing).threads
    ≡ bit (run ascii_only new_service failing).world.activating
one_activation_example = one_activation ascii_only failing

run-Shared_example : Shared (run ascii_only new_service failing).world
run-Shared_example = run-Shared ascii_only failing

closed_once_example :
    held 0 (run ascii_only new_service failing).world.client
      + times 0 (run ascii_only new_service failing).world.closed
    ≤ 1
closed_once_example = closed_once ascii_only failing 0

no_client_left_example : times 0 (run ascii_only new_service failing).world.closed ≡ 1
unfolding run exec reserve_activation is_auth_mode_valid text_eq merge_details
    parse_activation_settings lookup sort_keys set_state_value finish_failed_activation
    clear_prompt_for_activation
no_client_left_example = no_client_left ascii_only failing 0 refl refl (omega arith)

-- An activation is under way.
abbrev activating : System
activating = record new_service {
  world = record new_world {
    activating = true;
    activation_cancel = some 0;
    activation_id = 1;
    next_context = 1;
  };
}

cancelled_never_completes_example :
    (complete_activation 0 0 no_profile
        (run ascii_only
          (record activating { world = (disconnect_locked activating.world).1 })
          (called (connect []) ∷ stepped 0 proceed ∷ [])).world
      ≡ (
        none,
        (run ascii_only
            (record activating { world = (disconnect_locked activating.world).1 })
            (called (connect []) ∷ stepped 0 proceed ∷ [])).world,
      ))
    × (complete_activation 0 0 no_profile
          (run ascii_only
            (record activating { world = set_failure_locked activating.world })
            (called (connect []) ∷ stepped 0 proceed ∷ [])).world
        ≡ (
          none,
          (run ascii_only
              (record activating { world = set_failure_locked activating.world })
              (called (connect []) ∷ stepped 0 proceed ∷ [])).world,
        ))
cancelled_never_completes_example =
    cancelled_never_completes ascii_only activating (called (connect []) ∷ stepped 0 proceed ∷ []) 0
      0 no_profile refl

abbrev prompt : ActivationPrompt
prompt = record { activation_id = 7; kind = setup_key; channel = 0 }

abbrev secrets : ActivationSettings
secrets = record {
  profile = no_profile;
  setup_key = codes "A1B2";
  management_url = [];
  admin_url = [];
  hostname = [];
  interface_name = [];
  pre_shared_key = [];
  auth_mode = codes "setup-key";
  prompt_activation_id = codes "6";
  sso_requested = false;
  sso_verification_uri = [];
  sso_verification_uri_complete = [];
  sso_user_code = [];
  sso_continue = false;
  sso_cancel = false;
}

abbrev prompted : World
prompted = record activating.world { prompt = some prompt; activation_id = 7 }

new_secrets_stale_example :
    new_secrets_locked secrets prompted
    ≡ (if 6 == 7 then handle_new_secrets_locked prompt secrets prompted else prompted)
unfolding format_activation_id
new_secrets_stale_example = new_secrets_stale secrets prompted prompt 6 refl refl

monitor_gives_up_example :
    (alone ascii_only (monitor 0 0 1 0 ∷ []) (failed_round false ++ failed_round true) new_world
      ≡ (monitor 0 0 1 2 ∷ [], new_world))
    × (alone ascii_only
          (monitor 0 0 1 0 ∷ [])
          (failed_round false ++ failed_round true ++ failed_round false)
          new_world
        ≡ alone ascii_only (fail_session 1 ∷ []) (proceed ∷ []) new_world)
unfolding member
monitor_gives_up_example = monitor_gives_up ascii_only 0 0 1 new_world false true false refl

-- `Disconnect` has ended the session of the monitor with context 0.
abbrev ended : World
ended = record new_world { state = stopped; session_id = 2; cancelled = 0 ∷ []; next_context = 1 }

abbrev connected_answer : StatusResponse
connected_answer = record { status = codes "Connected"; full_status = none; daemon_version = [] }

stale_monitor_publishes_example :
    ((run ascii_only
        (record { world = ended; threads = (poll 0 0 1 0 ∷ []) ∷ [] })
        (stepped 0 (status_is (some connected_answer)) ∷ stepped 1 proceed ∷ [])).world.state
      ≡ started)
    × ((run ascii_only
          (record { world = ended; threads = (poll 0 0 1 0 ∷ []) ∷ [] })
          (stepped 0 (status_is (some connected_answer)) ∷ stepped 1 proceed ∷ [])).world.client
        ≡ none)
unfolding member map_status map_status_string full_status_failure
stale_monitor_publishes_example =
    stale_monitor_publishes ascii_only 0 0 1 0 ended (some connected_answer) refl refl refl refl
