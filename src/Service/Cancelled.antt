-- ===== src/Service/Cancelled.antt =====
-- internal/nmplugin/service.go: an activation that was cancelled never becomes a session.
use network_manager_vpn_plug.Prelude.{ℕ, Bool, true, List, Option, none, some, ◌≡◌, arith}
use network_manager_vpn_plug.Go.Unicode.{Tables}
use network_manager_vpn_plug.Daemon.{ProfileRef}
use network_manager_vpn_plug.Daemon.Messages.{LoginResponse}
use network_manager_vpn_plug.Settings.Parse.{ActivationSettings}
use network_manager_vpn_plug.Settings.Values.{ConnectionSettings, VariantMap}
use network_manager_vpn_plug.Status
use network_manager_vpn_plug.Status.{map_status}
use network_manager_vpn_plug.Service.Exec.{exec}
use network_manager_vpn_plug.Service.Phases.{
  Outcome, start_activation, disconnect_client, check_settings, ask_setup_key, start_authentication,
  receive_setup_key, after_login, ask_sso, check_ready, after_completion, after_failed_session,
}
use network_manager_vpn_plug.Service.Locked.{
  set_state_value, reserve_activation, finish_failed_activation, complete_activation,
  set_state_for_active_session, clear_active_session, fail_active_session, disconnect_locked,
  set_failure_locked, register_activation_prompt, received, new_secrets_locked, new_secrets_at,
  handle_new_secrets_locked, clear_prompt_for_activation,
}
use network_manager_vpn_plug.Service.Program.{
  ActivationAttempt, Reply, deadline, login_is, status_is, Op, set_state, cancel_context, reserve,
  disconnect, set_failure, new_secrets, begin, authenticate, await_setup_key, login, sso_prompt,
  wait_ready, complete, set_active_state, clear_prompt, finish_failed, clear_session, fail_session,
}
use network_manager_vpn_plug.Service.Slot.{claims, thread_of-claims}
use network_manager_vpn_plug.Service.Threads.{run-keeps}
use network_manager_vpn_plug.Service.State.{World, ActivationPrompt, member, is_cancelled}
use network_manager_vpn_plug.Service.System.{System, Event, run}

module _ (c : ℕ) where
  -- The context is cancelled.
  abbrev Dead : World → Type 0
  Dead w = is_cancelled c w ≡ true

  abbrev StillDead : Outcome → Type 0
  StillDead o = Dead o.world

  module _ (w : World) (h : Dead w) where
    start_activation-dead :
        (x : ConnectionSettings) (d : VariantMap) (i : Bool)
        → StillDead (start_activation x d i (reserve_activation w))
    unfolding start_activation reserve_activation
    start_activation-dead x d i = ground arith

    disconnect_client-dead : StillDead (disconnect_client (disconnect_locked w))
    unfolding disconnect_client disconnect_locked member
    disconnect_client-dead = ground arith

    new_secrets_locked-Dead : (s : ActivationSettings) → Dead (new_secrets_locked s w)
    unfolding new_secrets_locked new_secrets_at handle_new_secrets_locked member
    new_secrets_locked-Dead s = ground arith

    check_settings-dead :
        (a : ActivationAttempt) (s : ActivationSettings) → StillDead (check_settings a s w)
    unfolding check_settings
    check_settings-dead a s = ground arith

    ask_sso-dead :
        (a : ActivationAttempt) (response : LoginResponse) (p : ActivationPrompt)
        → StillDead (ask_sso a response (register_activation_prompt p w))
    unfolding ask_sso register_activation_prompt
    ask_sso-dead a response p = ground arith

    start_authentication-dead :
        (a : ActivationAttempt) (s : ActivationSettings) (client : ℕ)
        → StillDead (start_authentication a s client w)
    unfolding start_authentication ask_setup_key register_activation_prompt
    start_authentication-dead a s client = ground arith

    receive_setup_key-dead :
        (a : ActivationAttempt) (s : ActivationSettings) (client channel : ℕ)
        (x : Option ActivationSettings)
        → StillDead (receive_setup_key a s client channel x w)
    unfolding receive_setup_key
    receive_setup_key-dead a s client channel none = ground arith
    receive_setup_key-dead a s client channel (some t) = ground arith

    after_login-dead :
        (a : ActivationAttempt) (s : ActivationSettings) (client : ℕ) (response : LoginResponse)
        → StillDead (after_login a s client response w)
    unfolding after_login
    after_login-dead a s client response = ground arith

    check_ready-dead :
        (a : ActivationAttempt) (client : ℕ) (p : ProfileRef) (m : Status.Mapping)
        → StillDead (check_ready a client p m w)
    unfolding check_ready
    check_ready-dead a client p m = ground arith

    complete-dead :
        (a : ActivationAttempt) (client context : ℕ) (p : ProfileRef)
        → StillDead (after_completion a client context (complete_activation a.context client p w))
    unfolding after_completion complete_activation member
    complete-dead a client context p = ground arith

    after_failed_session-dead :
        (session : ℕ) → StillDead (after_failed_session (fail_active_session session w))
    unfolding after_failed_session fail_active_session
    after_failed_session-dead session = ground arith

  exec-Dead :
      (tables : Tables) (op : Op) (r : Reply) (w : World) → Dead w → StillDead (exec tables op r w)
  unfolding exec
  exec-Dead tables (set_state st) r w h = unfold set_state_value in ground arith
  exec-Dead tables (cancel_context context) r w h = unfold member in ground arith
  exec-Dead tables (reserve connection details interactive) r w h =
      start_activation-dead w h connection details interactive
  exec-Dead tables (set_active_state session) r w h =
      unfold set_state_for_active_session in ground arith
  exec-Dead tables disconnect r w h = disconnect_client-dead w h
  exec-Dead tables set_failure r w h = unfold set_failure_locked member in ground arith
  exec-Dead tables (new_secrets connection) r w h = new_secrets_locked-Dead w h _
  exec-Dead tables (begin a) r w h = check_settings-dead w h a _
  exec-Dead tables (authenticate a s client) r w h = start_authentication-dead w h a s client
  exec-Dead tables (await_setup_key a s client channel) deadline w h = ground arith
  exec-Dead tables (await_setup_key a s client channel) _ w h =
      receive_setup_key-dead w h a s client channel (received channel w)
  exec-Dead tables (login a s client) (login_is response) w h =
      after_login-dead w h a s client response
  exec-Dead tables (sso_prompt a response) r w h = ask_sso-dead w h a response _
  exec-Dead tables (complete a client p) r w h = complete-dead w h a client w.next_context p
  exec-Dead tables (clear_session session) r w h =
      unfold clear_active_session member in ground arith
  exec-Dead tables (fail_session session) r w h = after_failed_session-dead w h session
  exec-Dead tables (clear_prompt id) r w h = unfold clear_prompt_for_activation in ground arith
  exec-Dead tables (wait_ready a client p) (status_is resp) w h =
      check_ready-dead w h a client p (map_status tables resp)
  exec-Dead tables finish_failed r w h = unfold finish_failed_activation in ground arith
  exec-Dead tables _ _ w h = ground arith

  abbrev AlwaysDead : World → ℕ → Type 0
  AlwaysDead w n = Dead w

  run-Dead :
      (tables : Tables) (s : System) (es : List Event) → Dead s.world → Dead (run tables s es).world
  run-Dead tables =
      run-keeps claims AlwaysDead tables (λ op r w n h. exec-Dead tables op r w h) thread_of-claims

complete_dead :
    (c client : ℕ) (p : ProfileRef) (w : World)
    → is_cancelled c w ≡ true
    → complete_activation c client p w ≡ (none, w)
unfolding complete_activation
complete_dead c client p w h = ground arith

-- Once `Disconnect` or `SetFailure` has cancelled the activation under way, `completeActivation` fails
-- for its context and changes nothing, whatever the threads do in between.
pub cancelled_never_completes :
    (tables : Tables) (s : System) (es : List Event) (c client : ℕ) (p : ProfileRef)
    → s.world.activation_cancel ≡ some c
    → let after_disconnect =
        (run tables (record s { world = (disconnect_locked s.world).1 }) es).world in
      let after_failure = (run tables (record s { world = set_failure_locked s.world }) es).world in
      (complete_activation c client p after_disconnect ≡ (none, after_disconnect))
      × (complete_activation c client p after_failure ≡ (none, after_failure))
unfolding disconnect_locked set_failure_locked member
cancelled_never_completes tables s es c client p h = (
  complete_dead c client p _ (run-Dead c tables _ es (ground arith)),
  complete_dead c client p _ (run-Dead c tables _ es (ground arith)),
)
