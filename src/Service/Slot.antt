-- ===== src/Service/Slot.antt =====
-- internal/nmplugin/service.go: the single slot for an activation.
use network_manager_vpn_plug.Prelude.{
  ℕ, suc, ◌+◌, Bool, List, Option, none, some, ◌≡◌, refl, arith, bit,
}
use network_manager_vpn_plug.Go.Unicode.{Tables}
use network_manager_vpn_plug.Daemon.{ProfileRef}
use network_manager_vpn_plug.Daemon.Messages.{LoginResponse}
use network_manager_vpn_plug.Settings.Parse.{ActivationSettings, parse_activation_settings}
use network_manager_vpn_plug.Settings.Values.{ConnectionSettings, VariantMap}
use network_manager_vpn_plug.Status
use network_manager_vpn_plug.Status.{map_status}
use network_manager_vpn_plug.Service.Exec.{exec}
use network_manager_vpn_plug.Service.Phases.{
  Outcome, start_activation, disconnect_client, check_settings, ask_setup_key, start_authentication,
  receive_setup_key, after_login, ask_sso, check_ready, after_completion, after_failed_session,
}
use network_manager_vpn_plug.Service.Locked.{
  set_state_value, reserve_activation, finish_failed_activation, complete_activation,
  set_state_for_active_session, clear_active_session, fail_active_session, disconnect_locked,
  set_failure_locked, register_activation_prompt, received, new_secrets_locked, new_secrets_at,
  handle_new_secrets_locked, clear_prompt_for_activation,
}
use network_manager_vpn_plug.Service.Program.{
  ActivationAttempt, Reply, deadline, login_is, status_is, Op, set_state, reserve, disconnect,
  set_failure, new_secrets, launch, begin, new_client, prepare, authenticate, await_setup_key,
  login, wait_sso, update, sso_prompt, resolve, up, wait_ready, ready_tick, emit_config, complete,
  set_active_state, clear_prompt, finish_failed, clear_session, fail_session,
}
use network_manager_vpn_plug.Service.Shared.{Shared}
use network_manager_vpn_plug.Service.Steps.{exec-Shared}
use network_manager_vpn_plug.Service.Threads.{total, total_all, run-keeps}
use network_manager_vpn_plug.Service.State.{World, ActivationPrompt}
use network_manager_vpn_plug.Service.System.{Event, Call, thread_of, run, new_service}

-- 1 for an operation of an activation that has not given the slot back.
abbrev pub claims : Op → ℕ
claims (launch _) = 1
claims (begin _) = 1
claims (new_client _ _) = 1
claims (prepare _ _ _) = 1
claims (authenticate _ _ _) = 1
claims (await_setup_key _ _ _ _) = 1
claims (login _ _ _) = 1
claims (wait_sso _ _ _) = 1
claims (update _ _ _) = 1
claims (resolve _ _ _) = 1
claims (up _ _ _) = 1
claims (wait_ready _ _ _) = 1
claims (ready_tick _ _ _) = 1
claims (emit_config _ _ _) = 1
claims (complete _ _ _) = 1
claims finish_failed = 1
claims _ = 0

abbrev made : Outcome → ℕ
made o = total claims o.next + total claims o.spawned

module _ (n : ℕ) where
  start_activation-claims :
      (c : ConnectionSettings) (d : VariantMap) (i : Bool) (w : World)
      → n ≡ bit w.activating
      → made (start_activation c d i (reserve_activation w)) + n
        ≡ bit (start_activation c d i (reserve_activation w)).world.activating
  unfolding start_activation reserve_activation
  start_activation-claims c d i w h = ground arith

  disconnect_client-claims :
      (w : World)
      → n ≡ bit w.activating
      → made (disconnect_client (disconnect_locked w)) + n
        ≡ bit (disconnect_client (disconnect_locked w)).world.activating
  unfolding disconnect_client disconnect_locked
  disconnect_client-claims w h = ground arith

  new_secrets_locked-claims :
      (s : ActivationSettings) (w : World)
      → n ≡ bit w.activating
      → n ≡ bit (new_secrets_locked s w).activating
  unfolding new_secrets_locked new_secrets_at handle_new_secrets_locked
  new_secrets_locked-claims s w h = ground arith

  module _ (a : ActivationAttempt) (w : World) (h : suc n ≡ bit w.activating) where
    check_settings-claims :
        (s : ActivationSettings)
        → made (check_settings a s w) + n ≡ bit (check_settings a s w).world.activating
    unfolding check_settings
    check_settings-claims s = ground arith

    start_authentication-claims :
        (s : ActivationSettings) (client : ℕ)
        → made (start_authentication a s client w) + n
          ≡ bit (start_authentication a s client w).world.activating
    unfolding start_authentication ask_setup_key register_activation_prompt
    start_authentication-claims s client = ground arith

    receive_setup_key-claims :
        (s : ActivationSettings) (client channel : ℕ) (x : Option ActivationSettings)
        → made (receive_setup_key a s client channel x w) + n
          ≡ bit (receive_setup_key a s client channel x w).world.activating
    unfolding receive_setup_key
    receive_setup_key-claims s client channel none = ground arith
    receive_setup_key-claims s client channel (some t) = ground arith

    after_login-claims :
        (s : ActivationSettings) (client : ℕ) (response : LoginResponse)
        → made (after_login a s client response w) + n
          ≡ bit (after_login a s client response w).world.activating
    unfolding after_login
    after_login-claims s client response = ground arith

    check_ready-claims :
        (client : ℕ) (p : ProfileRef) (m : Status.Mapping)
        → made (check_ready a client p m w) + n ≡ bit (check_ready a client p m w).world.activating
    unfolding check_ready
    check_ready-claims client p m = ground arith

    abbrev completed : ℕ → ℕ → ProfileRef → Outcome
    completed client context p =
        after_completion a client context (complete_activation a.context client p w)

    complete-claims :
        (client context : ℕ) (p : ProfileRef)
        → made (completed client context p) + n ≡ bit (completed client context p).world.activating
    unfolding after_completion complete_activation
    complete-claims client context p = ground arith

  ask_sso-claims :
      (a : ActivationAttempt) (response : LoginResponse) (p : ActivationPrompt) (w : World)
      → n ≡ bit w.activating
      → made (ask_sso a response (register_activation_prompt p w)) + n
        ≡ bit (ask_sso a response (register_activation_prompt p w)).world.activating
  unfolding ask_sso register_activation_prompt
  ask_sso-claims a response p w h = ground arith

  after_failed_session-claims :
      (session : ℕ) (w : World)
      → n ≡ bit w.activating
      → made (after_failed_session (fail_active_session session w)) + n
        ≡ bit (after_failed_session (fail_active_session session w)).world.activating
  unfolding after_failed_session fail_active_session
  after_failed_session-claims session w h = ground arith

-- Each operation keeps the claims of all threads, `n` of them elsewhere, equal to the slot's state.
pub exec-claims :
    (tables : Tables) (op : Op) (r : Reply) (w : World) (n : ℕ)
    → claims op + n ≡ bit w.activating
    → made (exec tables op r w) + n ≡ bit (exec tables op r w).world.activating
unfolding exec
exec-claims tables (set_state st) r w n h = unfold set_state_value in ground arith
exec-claims tables (reserve connection details interactive) r w n h =
    start_activation-claims n connection details interactive w (omega arith)
exec-claims tables (set_active_state session) r w n h =
    unfold set_state_for_active_session in ground arith
exec-claims tables disconnect r w n h = disconnect_client-claims n w (omega arith)
exec-claims tables set_failure r w n h = unfold set_failure_locked in omega arith
exec-claims tables (new_secrets connection) r w n h = omega (
  arith,
  new_secrets_locked-claims n (parse_activation_settings tables connection) w (omega arith),
)
exec-claims tables (begin a) r w n h = check_settings-claims n a w (omega arith) _
exec-claims tables (authenticate a s client) r w n h =
    start_authentication-claims n a w (omega arith) s client
exec-claims tables (await_setup_key a s client channel) deadline w n h = ground arith
exec-claims tables (await_setup_key a s client channel) _ w n h =
    receive_setup_key-claims n a w (omega arith) s client channel (received channel w)
exec-claims tables (login a s client) (login_is response) w n h =
    after_login-claims n a w (omega arith) s client response
exec-claims tables (sso_prompt a response) r w n h = ask_sso-claims n a response _ w (omega arith)
exec-claims tables (complete a client p) r w n h =
    complete-claims n a w (omega arith) client w.next_context p
exec-claims tables (clear_session session) r w n h = unfold clear_active_session in ground arith
exec-claims tables (fail_session session) r w n h =
    after_failed_session-claims n session w (omega arith)
exec-claims tables (clear_prompt id) r w n h = unfold clear_prompt_for_activation in ground arith
exec-claims tables (wait_ready a client p) (status_is resp) w n h =
    check_ready-claims n a w (omega arith) client p (map_status tables resp)
exec-claims tables finish_failed r w n h = unfold finish_failed_activation in ground arith
exec-claims tables _ _ w n h = ground arith

pub thread_of-claims : (c : Call) → total claims (thread_of c) ≡ 0
thread_of-claims _ = ground arith

abbrev Slot : World → ℕ → Type 0
Slot w n = n ≡ bit w.activating

-- However the threads of the service interleave, and whatever is called and answered, the activations
-- that have not given the slot back are one while `activating` is set, and none while it is not.
pub one_activation :
    (tables : Tables) (es : List Event)
    → total_all claims (run tables new_service es).threads
      ≡ bit (run tables new_service es).world.activating
one_activation tables es =
    run-keeps claims Slot tables (λ op r w n h. exec-claims tables op r w n h) thread_of-claims
      new_service es refl

abbrev SharedOnly : World → ℕ → Type 0
SharedOnly w n = Shared w

-- However the threads interleave, while an activation is under way there is no active client, the
-- cancel functions are set exactly with what they cancel, and a prompt is that of the activation
-- under way.
pub run-Shared : (tables : Tables) (es : List Event) → Shared (run tables new_service es).world
run-Shared tables es =
    run-keeps claims SharedOnly tables (λ op r w n h. exec-Shared tables op r w h) thread_of-claims
      new_service es (ground arith)
