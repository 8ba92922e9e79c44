-- ===== src/Service/Steps.antt =====
-- internal/nmplugin/service.go: every step of every thread keeps `Shared`.
use network_manager_vpn_plug.Prelude.{ℕ, suc, Bool, true, false, Option, none, some, arith}
use network_manager_vpn_plug.Go.Unicode.{Tables}
use network_manager_vpn_plug.Daemon.{ProfileRef}
use network_manager_vpn_plug.Daemon.Messages.{LoginResponse}
use network_manager_vpn_plug.Settings.Parse.{
  ActivationSettings, parse_activation_settings, merge_details,
}
use network_manager_vpn_plug.Settings.Values.{ConnectionSettings, VariantMap}
use network_manager_vpn_plug.Status
use network_manager_vpn_plug.Status.{map_status}
use network_manager_vpn_plug.Service.Exec.{exec}
use network_manager_vpn_plug.Service.Phases.{
  start_activation, disconnect_client, check_settings, ask_setup_key, start_authentication,
  receive_setup_key, after_login, ask_sso, check_ready, after_completion, after_failed_session,
}
use network_manager_vpn_plug.Service.Locked.{
  reserve_activation, complete_activation, FailedSession, fail_active_session, disconnect_locked,
  register_activation_prompt, received,
}
use network_manager_vpn_plug.Service.Program.{
  ActivationAttempt, Reply, deadline, login_is, status_is, Op, set_state, reserve, disconnect,
  set_failure, new_secrets, begin, authenticate, await_setup_key, login, sso_prompt, wait_ready,
  complete, set_active_state, clear_prompt, finish_failed, clear_session, fail_session,
}
use network_manager_vpn_plug.Service.Shared.{
  Shared, set_state_value-Shared, reserve_activation-Shared, finish_failed_activation-Shared,
  complete_activation-Shared, set_state_for_active_session-Shared, clear_active_session-Shared,
  fail_active_session-Shared, disconnect_locked-Shared, set_failure_locked-Shared,
  new_secrets_locked-Shared, register_activation_prompt-Shared, clear_prompt_for_activation-Shared,
}
use network_manager_vpn_plug.Service.State.{World, started, setup_key}

-- The parts of a step that follow a section under the lock change nothing that `Shared` reads.
start_activation-Shared :
    (c : ConnectionSettings) (d : VariantMap) (i : Bool) (x : Option (ℕ × ℕ) × World)
    → Shared x.1
    → Shared (start_activation c d i x).world
unfolding start_activation
start_activation-Shared c d i (none, w) h = ground arith
start_activation-Shared c d i (some (context, id), w) h = h

disconnect_client-Shared : (x : Option ℕ × World) → Shared x.1 → Shared (disconnect_client x).world
unfolding disconnect_client
disconnect_client-Shared (none, w) h = h
disconnect_client-Shared (some client, w) h = h

check_settings-Shared :
    (a : ActivationAttempt) (s : ActivationSettings) (w : World)
    → Shared w
    → Shared (check_settings a s w).world
unfolding check_settings
check_settings-Shared a s w h = ground arith

ask_setup_key-Shared :
    (a : ActivationAttempt) (s : ActivationSettings) (client channel : ℕ) (x : Bool × World)
    → Shared x.1
    → Shared (ask_setup_key a s client channel x).world
unfolding ask_setup_key
ask_setup_key-Shared a s client channel (false, w) h = h
ask_setup_key-Shared a s client channel (true, w) h = h

start_authentication-Shared :
    (a : ActivationAttempt) (s : ActivationSettings) (client : ℕ) (w : World)
    → Shared w
    → Shared (start_authentication a s client w).world
unfolding start_authentication
start_authentication-Shared a s client w h =
    let v : World = record w { next_channel = suc w.next_channel } in
    let v-Shared : Shared v = ground arith in
    ground (
      arith,
      ask_setup_key-Shared a s client w.next_channel
          (register_activation_prompt
            (record { activation_id = a.id; kind = setup_key; channel = w.next_channel }) v)
          (register_activation_prompt-Shared
            (record { activation_id = a.id; kind = setup_key; channel = w.next_channel }) v
            v-Shared),
    )

receive_setup_key-Shared :
    (a : ActivationAttempt) (s : ActivationSettings) (client channel : ℕ)
    (x : Option ActivationSettings) (w : World)
    → Shared w
    → Shared (receive_setup_key a s client channel x w).world
unfolding receive_setup_key
receive_setup_key-Shared a s client channel none w h = h
receive_setup_key-Shared a s client channel (some t) w h = ground arith

after_login-Shared :
    (a : ActivationAttempt) (s : ActivationSettings) (client : ℕ) (response : LoginResponse)
    (w : World)
    → Shared w
    → Shared (after_login a s client response w).world
unfolding after_login
after_login-Shared a s client response w h = ground arith

ask_sso-Shared :
    (a : ActivationAttempt) (response : LoginResponse) (x : Bool × World)
    → Shared x.1
    → Shared (ask_sso a response x).world
unfolding ask_sso
ask_sso-Shared a response (false, w) h = h
ask_sso-Shared a response (true, w) h = h

check_ready-Shared :
    (a : ActivationAttempt) (client : ℕ) (p : ProfileRef) (m : Status.Mapping) (w : World)
    → Shared w
    → Shared (check_ready a client p m w).world
unfolding check_ready
check_ready-Shared a client p m w h = ground arith

after_completion-Shared :
    (a : ActivationAttempt) (client context : ℕ) (x : Option ℕ × World)
    → Shared x.1
    → Shared (after_completion a client context x).world
unfolding after_completion
after_completion-Shared a client context (none, w) h = h
after_completion-Shared a client context (some session, w) h = h

after_failed_session-Shared :
    (x : Option FailedSession × World) → Shared x.1 → Shared (after_failed_session x).world
unfolding after_failed_session
after_failed_session-Shared (none, w) h = h
after_failed_session-Shared (some f, w) h = h

-- Every operation of every thread keeps `Shared`, whatever it is told.
pub exec-Shared :
    (tables : Tables) (op : Op) (r : Reply) (w : World)
    → Shared w
    → Shared (exec tables op r w).world
unfolding exec
exec-Shared tables (set_state st) r w h = set_state_value-Shared st w h
exec-Shared tables (reserve connection details interactive) r w h =
    start_activation-Shared connection details interactive (reserve_activation w)
      (reserve_activation-Shared w h)
exec-Shared tables disconnect r w h =
    disconnect_client-Shared (disconnect_locked w) (disconnect_locked-Shared w h)
exec-Shared tables set_failure r w h = set_failure_locked-Shared w h
exec-Shared tables (new_secrets connection) r w h =
    new_secrets_locked-Shared (parse_activation_settings tables connection) w h
exec-Shared tables (begin a) r w h =
    check_settings-Shared a
      (merge_details tables (parse_activation_settings tables a.connection) a.details) w h
exec-Shared tables (authenticate a s client) r w h = start_authentication-Shared a s client w h
exec-Shared tables (await_setup_key a s client channel) deadline w h = h
exec-Shared tables (await_setup_key a s client channel) _ w h =
    receive_setup_key-Shared a s client channel (received channel w) w h
exec-Shared tables (login a s client) (login_is response) w h =
    after_login-Shared a s client response w h
exec-Shared tables (sso_prompt a response) r w h =
    ask_sso-Shared a response _ (register_activation_prompt-Shared _ w h)
exec-Shared tables (wait_ready a client p) (status_is resp) w h =
    check_ready-Shared a client p (map_status tables resp) w h
exec-Shared tables (complete a client p) r w h =
    after_completion-Shared a client w.next_context (complete_activation a.context client p w)
      (complete_activation-Shared a.context client p w h)
exec-Shared tables (set_active_state session) r w h =
    set_state_for_active_session-Shared session started w h
exec-Shared tables (clear_prompt id) r w h = clear_prompt_for_activation-Shared id w h
exec-Shared tables finish_failed r w h = finish_failed_activation-Shared w h
exec-Shared tables (clear_session session) r w h = clear_active_session-Shared session w h
exec-Shared tables (fail_session session) r w h =
    after_failed_session-Shared (fail_active_session session w)
      (fail_active_session-Shared session w h)
exec-Shared tables _ _ w h = ground arith
