-- ===== src/Service/Clients.antt =====
-- internal/nmplugin/service.go: every client that is made is closed once, and by whom.
use network_manager_vpn_plug.Prelude.{
  ℕ, ◌+◌, ◌≤◌, ◌<◌, Bool, List, [], ◌∷◌, Option, none, some, ◌==◌, ltb, ◌≡◌, arith, bit,
}
use network_manager_vpn_plug.Go.Unicode.{Tables}
use network_manager_vpn_plug.Daemon.{ProfileRef}
use network_manager_vpn_plug.Daemon.Messages.{LoginResponse}
use network_manager_vpn_plug.Settings.Parse.{ActivationSettings, parse_activation_settings}
use network_manager_vpn_plug.Settings.Values.{ConnectionSettings, VariantMap}
use network_manager_vpn_plug.Status
use network_manager_vpn_plug.Status.{map_status}
use network_manager_vpn_plug.Service.Exec.{exec}
use network_manager_vpn_plug.Service.Phases.{
  Outcome, start_activation, disconnect_client, check_settings, ask_setup_key, start_authentication,
  receive_setup_key, after_login, ask_sso, check_ready, after_completion, after_failed_session,
}
use network_manager_vpn_plug.Service.Locked.{
  set_state_value, reserve_activation, finish_failed_activation, complete_activation,
  set_state_for_active_session, clear_active_session, fail_active_session, disconnect_locked,
  set_failure_locked, register_activation_prompt, received, new_secrets_locked, new_secrets_at,
  handle_new_secrets_locked, clear_prompt_for_activation,
}
use network_manager_vpn_plug.Service.Program.{
  ActivationAttempt, Reply, deadline, login_is, status_is, Op, set_state, close, reserve,
  disconnect, set_failure, disconnect_down, new_secrets, begin, prepare, authenticate,
  await_setup_key, login, wait_sso, update, sso_prompt, resolve, up, wait_ready, ready_tick,
  emit_config, complete, set_active_state, clear_prompt, finish_failed, clear_session, fail_session,
}
use network_manager_vpn_plug.Service.Shared.{Shared}
use network_manager_vpn_plug.Service.Steps.{exec-Shared}
use network_manager_vpn_plug.Service.Threads.{total, total_all, run-keeps}
use network_manager_vpn_plug.Service.State.{World, ActivationPrompt}
use network_manager_vpn_plug.Service.System.{Event, Call, thread_of, run, new_service}

abbrev pub times : ℕ → List ℕ → ℕ
times k [] = 0
times k (c ∷ cs) = bit (k == c) + times k cs

-- 1 for an operation that has this client and must close it or hand it on.
abbrev pub owns : ℕ → Op → ℕ
owns k (close client) = bit (k == client)
owns k (disconnect_down client) = bit (k == client)
owns k (prepare _ _ client) = bit (k == client)
owns k (authenticate _ _ client) = bit (k == client)
owns k (await_setup_key _ _ client _) = bit (k == client)
owns k (login _ _ client) = bit (k == client)
owns k (wait_sso _ _ client) = bit (k == client)
owns k (update _ _ client) = bit (k == client)
owns k (resolve _ _ client) = bit (k == client)
owns k (up _ client _) = bit (k == client)
owns k (wait_ready _ client _) = bit (k == client)
owns k (ready_tick _ client _) = bit (k == client)
owns k (emit_config _ client _) = bit (k == client)
owns k (complete _ client _) = bit (k == client)
owns _ _ = 0

abbrev pub held : ℕ → Option ℕ → ℕ
held k none = 0
held k (some client) = bit (k == client)

module _ (k : ℕ) where
  -- The client `k` is with a thread, with the service or closed, once if it has been made.
  abbrev Kept : World → ℕ → Type 0
  Kept w n = n + held k w.client + times k w.closed ≡ bit (ltb k w.next_client)

  abbrev made : Outcome → ℕ
  made o = total (owns k) o.next + total (owns k) o.spawned

  abbrev KeptBy : ℕ → Outcome → Type 0
  KeptBy n o = Kept o.world (made o + n)

  module _ (n : ℕ) (w : World) where
    start_activation-owns :
        (c : ConnectionSettings) (d : VariantMap) (i : Bool)
        → Kept w n
        → KeptBy n (start_activation c d i (reserve_activation w))
    unfolding start_activation reserve_activation
    start_activation-owns c d i h = ground arith

    disconnect_client-owns : Kept w n → KeptBy n (disconnect_client (disconnect_locked w))
    unfolding disconnect_client disconnect_locked
    disconnect_client-owns h = ground arith

    new_secrets_locked-owns : (s : ActivationSettings) → Kept w n → Kept (new_secrets_locked s w) n
    unfolding new_secrets_locked new_secrets_at handle_new_secrets_locked
    new_secrets_locked-owns s h = ground arith

    check_settings-owns :
        (a : ActivationAttempt) (s : ActivationSettings)
        → Kept w n
        → KeptBy n (check_settings a s w)
    unfolding check_settings
    check_settings-owns a s h = ground arith

    ask_sso-owns :
        (a : ActivationAttempt) (response : LoginResponse) (p : ActivationPrompt)
        → Kept w n
        → KeptBy n (ask_sso a response (register_activation_prompt p w))
    unfolding ask_sso register_activation_prompt
    ask_sso-owns a response p h = ground arith

    after_failed_session-owns :
        (session : ℕ) → Kept w n → KeptBy n (after_failed_session (fail_active_session session w))
    unfolding after_failed_session fail_active_session
    after_failed_session-owns session h = ground arith

  module _ (n : ℕ) (w : World) (a : ActivationAttempt) (client : ℕ)
      (h : Kept w (bit (k == client) + n)) where
    start_authentication-owns :
        (s : ActivationSettings) → KeptBy n (start_authentication a s client w)
    unfolding start_authentication ask_setup_key register_activation_prompt
    start_authentication-owns s = ground arith

    receive_setup_key-owns :
        (s : ActivationSettings) (channel : ℕ) (x : Option ActivationSettings)
        → KeptBy n (receive_setup_key a s client channel x w)
    unfolding receive_setup_key
    receive_setup_key-owns s channel none = ground arith
    receive_setup_key-owns s channel (some t) = ground arith

    after_login-owns :
        (s : ActivationSettings) (response : LoginResponse)
        → KeptBy n (after_login a s client response w)
    unfolding after_login
    after_login-owns s response = ground arith

    check_ready-owns : (p : ProfileRef) (m : Status.Mapping) → KeptBy n (check_ready a client p m w)
    unfolding check_ready
    check_ready-owns p m = ground arith

    complete-owns :
        (context : ℕ) (p : ProfileRef)
        → Shared w
        → KeptBy n (after_completion a client context (complete_activation a.context client p w))
    unfolding after_completion complete_activation
    complete-owns context p sh = ground arith

-- Each operation keeps every client with one owner, or closes it.
exec-owns :
    (k : ℕ) (tables : Tables) (op : Op) (r : Reply) (w : World) (n : ℕ)
    → Shared w
    → Kept k w (owns k op + n)
    → KeptBy k n (exec tables op r w)
unfolding exec
exec-owns k tables (set_state st) r w n sh h = unfold set_state_value in ground arith
exec-owns k tables (reserve connection details interactive) r w n sh h =
    start_activation-owns k n w connection details interactive (omega arith)
exec-owns k tables (set_active_state session) r w n sh h =
    unfold set_state_for_active_session in ground arith
exec-owns k tables disconnect r w n sh h = disconnect_client-owns k n w (omega arith)
exec-owns k tables set_failure r w n sh h = unfold set_failure_locked in ground arith
exec-owns k tables (new_secrets connection) r w n sh h = omega (
  arith,
  new_secrets_locked-owns k n w (parse_activation_settings tables connection) (omega arith),
)
exec-owns k tables (begin a) r w n sh h = check_settings-owns k n w a _ (omega arith)
exec-owns k tables (authenticate a s client) r w n sh h =
    start_authentication-owns k n w a client h s
exec-owns k tables (await_setup_key a s client channel) deadline w n sh h = ground arith
exec-owns k tables (await_setup_key a s client channel) _ w n sh h =
    receive_setup_key-owns k n w a client h s channel (received channel w)
exec-owns k tables (login a s client) (login_is response) w n sh h =
    after_login-owns k n w a client h s response
exec-owns k tables (sso_prompt a response) r w n sh h =
    ask_sso-owns k n w a response _ (omega arith)
exec-owns k tables (complete a client p) r w n sh h =
    complete-owns k n w a client h w.next_context p sh
exec-owns k tables (clear_session session) r w n sh h = unfold clear_active_session in ground arith
exec-owns k tables (fail_session session) r w n sh h =
    after_failed_session-owns k n w session (omega arith)
exec-owns k tables (clear_prompt id) r w n sh h = unfold clear_prompt_for_activation in ground arith
exec-owns k tables (wait_ready a client p) (status_is resp) w n sh h =
    check_ready-owns k n w a client h p (map_status tables resp)
exec-owns k tables finish_failed r w n sh h = unfold finish_failed_activation in ground arith
exec-owns k tables _ _ w n sh h = ground arith

thread_of-owns : (k : ℕ) (c : Call) → total (owns k) (thread_of c) ≡ 0
thread_of-owns k _ = ground arith

abbrev Owned : ℕ → World → ℕ → Type 0
Owned k w n = Shared w × Kept k w n

run-Owned :
    (tables : Tables) (k : ℕ) (es : List Event)
    → Owned k
        (run tables new_service es).world
        (total_all (owns k) (run tables new_service es).threads)
run-Owned tables k es =
    run-keeps (owns k) (Owned k) tables
      (λ op r w n h. (exec-Shared tables op r w h.0, exec-owns k tables op r w n h.0 h.1))
      (thread_of-owns k) new_service es (unfold run in (ground arith, ground arith))

-- However the threads interleave, no client is closed twice, and one that the service holds has not
-- been closed.
pub closed_once :
    (tables : Tables) (es : List Event) (k : ℕ)
    → let w = (run tables new_service es).world in held k w.client + times k w.closed ≤ 1
closed_once tables es k = ground (arith, run-Owned tables k es)

-- Once no thread holds a client that was made and the service has no active client, that client is
-- closed, exactly once.
pub no_client_left :
    (tables : Tables) (es : List Event) (k : ℕ)
    → total_all (owns k) (run tables new_service es).threads ≡ 0
    → (run tables new_service es).world.client ≡ none
    → k < (run tables new_service es).world.next_client
    → times k (run tables new_service es).world.closed ≡ 1
no_client_left tables es k ended idle made_before = ground (arith, run-Owned tables k es)
