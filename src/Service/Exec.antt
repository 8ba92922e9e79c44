-- ===== src/Service/Exec.antt =====
-- internal/nmplugin/service.go, prompts.go and helpers.go: one step of a thread.
use network_manager_vpn_plug.Prelude.{suc, true, false, [], ◌∷◌, none, some, if◌then◌else◌}
use network_manager_vpn_plug.Go.Unicode.{Tables}
use network_manager_vpn_plug.Settings.Parse.{
  parse_activation_settings, merge_details, should_update_profile,
}
use network_manager_vpn_plug.Status.{map_status}
use network_manager_vpn_plug.Service.Locked.{
  set_state_value, reserve_activation, finish_failed_activation, complete_activation,
  set_state_for_active_session, clear_active_session, fail_active_session, disconnect_locked,
  set_failure_locked, received, new_secrets_locked, register_activation_prompt,
  clear_prompt_for_activation,
}
use network_manager_vpn_plug.Service.Program.{
  timed_out, daemon_error, Reply, proceed, deadline, refused, profile_is, login_is, status_is, Op,
  set_state, emit_state_changed, emit, down, close, cancel_context, reserve, disconnect,
  set_failure, disconnect_down, new_secrets, launch, begin, new_client, prepare, authenticate,
  await_setup_key, login, wait_sso, update, sso_prompt, resolve, up, wait_ready, ready_tick,
  emit_config, complete, set_active_state, clear_prompt, finish_failed, monitor, poll, wait_poll,
  threshold, clear_session, fail_session, abandon,
}
use network_manager_vpn_plug.Service.State.{
  started, stopped, login_failed, connect_failed, bad_ip_config, sso, state_changed,
  properties_changed, failure, config, vpn_failed, World,
}
use network_manager_vpn_plug.Service.Phases.{
  Outcome, go_on, say, announce, close_some, start_activation, disconnect_client, check_settings,
  ask_setup_key, start_authentication, receive_setup_key, after_login, ask_sso, classify_up_failure,
  check_ready, after_completion, after_poll, after_failed_session, monitor_status, poll_failed,
  stop_after_threshold, wait_interrupted,
}

module _ (tables : Tables) where
  -- One operation of a thread. An answer that does not fit leaves the thread where it is.
  unfoldable pub exec : Op → Reply → World → Outcome
  unfolding abandon start_activation disconnect_client check_settings ask_setup_key
      start_authentication receive_setup_key after_login ask_sso check_ready after_completion
      after_poll after_failed_session
  exec (set_state st) r w = let (changed, v) = set_state_value st w in go_on (announce st changed) v
  exec (emit_state_changed st) r w =
      go_on (emit (properties_changed st) ∷ []) (say (state_changed st) w)
  exec (emit m) r w = go_on [] (say m w)
  exec (down client) r w = go_on [] w
  exec (close client) r w = go_on [] (record w { closed = client ∷ w.closed })
  exec (cancel_context context) r w = go_on [] (record w { cancelled = context ∷ w.cancelled })
  exec (reserve connection details interactive) r w =
      start_activation connection details interactive (reserve_activation w)
  exec disconnect r w = disconnect_client (disconnect_locked w)
  exec (disconnect_down client) (refused _) w =
      go_on
        (close client ∷ emit (failure connect_failed) ∷ set_state stopped ∷ emit vpn_failed ∷ []) w
  exec (disconnect_down client) r w = go_on (close client ∷ set_state stopped ∷ []) w
  exec set_failure r w = go_on [] (set_failure_locked w)
  exec (new_secrets connection) r w =
      go_on [] (new_secrets_locked (parse_activation_settings tables connection) w)
  exec (launch a) r w = record { next = []; spawned = begin a ∷ []; world = w }
  exec (begin a) r w =
      check_settings a
        (merge_details tables (parse_activation_settings tables a.connection) a.details) w
  exec (new_client a s) (refused _) w = go_on (abandon a false none connect_failed daemon_error) w
  exec (new_client a s) r w =
      go_on (prepare a s w.next_client ∷ []) (record w { next_client = suc w.next_client })
  exec (prepare a s client) (profile_is p) w =
      go_on (authenticate a (record s { profile = p }) client ∷ []) w
  exec (prepare a s client) (refused _) w =
      go_on (abandon a false (some client) connect_failed daemon_error) w
  exec (prepare a s client) r w = go_on (prepare a s client ∷ []) w
  exec (authenticate a s client) r w = start_authentication a s client w
  exec (await_setup_key a s client channel) deadline w =
      go_on (abandon a false (some client) login_failed timed_out) w
  exec (await_setup_key a s client channel) r w =
      receive_setup_key a s client channel (received channel w) w
  exec (login a s client) (login_is response) w = after_login a s client response w
  exec (login a s client) (refused _) w =
      go_on (abandon a false (some client) login_failed daemon_error) w
  exec (login a s client) r w = go_on (login a s client ∷ []) w
  exec (sso_prompt a response) r w =
      ask_sso a response
        (register_activation_prompt (record { activation_id = a.id; kind = sso; channel = 0 }) w)
  exec (wait_sso a s client) proceed w = go_on (update a s client ∷ []) w
  exec (wait_sso a s client) (refused _) w =
      go_on (abandon a false (some client) login_failed timed_out) w
  exec (wait_sso a s client) r w = go_on (wait_sso a s client ∷ []) w
  exec (update a s client) (refused _) w =
      if should_update_profile s
      then go_on (abandon a false (some client) connect_failed daemon_error) w
      else go_on (resolve a s client ∷ []) w
  exec (update a s client) r w = go_on (resolve a s client ∷ []) w
  exec (resolve a s client) (profile_is p) w = go_on (up a client p ∷ []) w
  exec (resolve a s client) (refused _) w =
      go_on (abandon a false (some client) connect_failed daemon_error) w
  exec (resolve a s client) r w = go_on (resolve a s client ∷ []) w
  exec (up a client p) (refused authentication_required) w =
      go_on
        (abandon a false (some client) (classify_up_failure authentication_required) daemon_error) w
  exec (up a client p) proceed w = go_on (wait_ready a client p ∷ []) w
  exec (up a client p) r w = go_on (up a client p ∷ []) w
  exec (wait_ready a client p) (status_is resp) w =
      check_ready a client p (map_status tables resp) w
  exec (wait_ready a client p) (refused _) w = go_on (ready_tick a client p ∷ []) w
  exec (wait_ready a client p) r w = go_on (wait_ready a client p ∷ []) w
  exec (ready_tick a client p) deadline w =
      go_on (abandon a true (some client) connect_failed timed_out) w
  exec (ready_tick a client p) r w = go_on (wait_ready a client p ∷ []) w
  exec (emit_config a client p) (refused _) w =
      go_on (abandon a true (some client) bad_ip_config daemon_error) w
  exec (emit_config a client p) r w = go_on (complete a client p ∷ []) (say config w)
  exec (complete a client p) r w =
      after_completion a client w.next_context (complete_activation a.context client p w)
  exec (set_active_state session) r w =
      let (changed, v) = set_state_for_active_session session started w in
      go_on (announce started changed) v
  exec (clear_prompt id) r w = go_on [] (clear_prompt_for_activation id w)
  exec finish_failed r w = go_on [] (finish_failed_activation w)
  exec (monitor context client session failures) r w =
      monitor_status context client session failures w
  exec (poll context client session failures) (status_is resp) w =
      go_on (after_poll context client session (map_status tables resp).state) w
  exec (poll context client session failures) (refused _) w =
      poll_failed context client session failures w
  exec (poll context client session failures) r w =
      go_on (poll context client session failures ∷ []) w
  exec (threshold context client session failures) r w =
      stop_after_threshold context client session failures w
  exec (wait_poll context client session failures) deadline w =
      wait_interrupted context client session failures w
  exec (wait_poll context client session failures) r w =
      go_on (monitor context client session failures ∷ []) w
  exec (clear_session session) r w =
      let (client, v) = clear_active_session session w in go_on (close_some client) v
  exec (fail_session session) r w = after_failed_session (fail_active_session session w)
