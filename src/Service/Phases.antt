-- ===== src/Service/Phases.antt =====
-- internal/nmplugin/service.go, prompts.go and helpers.go: what a thread does next, behind each section
-- under the lock and each answer.
use network_manager_vpn_plug.Prelude.{
  ℕ, suc, ◌+◌, ltb, Bool, true, false, not, ◌&&◌, List, [], ◌∷◌, ◌++◌, Option, none, some,
  if◌then◌else◌, codes, text_eq, is_empty,
}
use network_manager_vpn_plug.Go.Strings.{trim_space}
use network_manager_vpn_plug.Daemon.{ProfileRef}
use network_manager_vpn_plug.Daemon.Messages.{LoginResponse}
use network_manager_vpn_plug.Settings.Values.{ConnectionSettings, VariantMap}
use network_manager_vpn_plug.Settings.Parse.{
  ActivationSettings, is_auth_mode_valid, should_login, needs_setup_key_secret,
}
use network_manager_vpn_plug.Status
use network_manager_vpn_plug.Status.{map_status}
use network_manager_vpn_plug.Status.Words
use network_manager_vpn_plug.Service.Locked.{
  FailedSession, remove_delivery, register_activation_prompt,
}
use network_manager_vpn_plug.Service.Program.{
  ActivationAttempt, unsupported_auth_mode, interactive_sso_needed, missing_setup_key,
  prompt_unavailable, daemon_failed, Op, set_state, emit_state_changed, emit, close, cancel_context,
  disconnect_down, launch, new_client, await_setup_key, login, wait_sso, update, sso_prompt,
  ready_tick, emit_config, set_active_state, monitor, poll, threshold, wait_poll, clear_session,
  fail_session, finish_activation_attempt, abandon,
}
use network_manager_vpn_plug.Service.Prompts.{
  setup_key_required_message, sso_required_message, setup_key_prompt_hints, sso_prompt_hints,
  format_sso_login_banner, merge_prompt_settings,
}
use network_manager_vpn_plug.Service.State.{
  ServiceState, starting, started, stopping, stopped, PluginFailure, login_failed, connect_failed,
  setup_key, ActivationPrompt, Message, failure, login_banner, secrets_required, already_active,
  World, is_cancelled,
}

-- What a step does: the operations that the thread makes next, the thread that it starts, which is
-- empty if it starts none, and the new world.
pub record Outcome : Type 0 where
  pub next : List Op
  pub spawned : List Op
  pub world : World

abbrev pub go_on : List Op → World → Outcome
go_on next w = record { next = next; spawned = []; world = w }

abbrev pub say : Message → World → World
say m w = record w { messages = m ∷ w.messages }

-- `emitStateChanged`, if the state has changed.
abbrev pub announce : ServiceState → Bool → List Op
announce st true = emit_state_changed st ∷ []
announce st false = []

abbrev pub close_some : Option ℕ → List Op
close_some none = []
close_some (some client) = close client ∷ []

abbrev pub cancel_some : Option ℕ → List Op → List Op
cancel_some none rest = rest
cancel_some (some context) rest = cancel_context context ∷ rest

-- `startActivation` behind `reserveActivation`.
unfoldable pub start_activation :
    ConnectionSettings → VariantMap → Bool → Option (ℕ × ℕ) × World → Outcome
start_activation connection details interactive (none, w) = go_on [] (say already_active w)
start_activation connection details interactive (some (context, id), w) = record {
  next =
      set_state starting
      ∷ launch (record {
        context = context;
        id = id;
        connection = connection;
        details = details;
        interactive = interactive;
      })
      ∷ [];
  spawned = [];
  world = w;
}

-- `Disconnect` behind its section under the lock.
unfoldable pub disconnect_client : Option ℕ × World → Outcome
disconnect_client (none, w) = go_on (set_state stopping ∷ set_state stopped ∷ []) w
disconnect_client (some client, w) = go_on (set_state stopping ∷ disconnect_down client ∷ []) w

-- `runActivation` up to `NewClient`, on the settings that it parses.
unfoldable pub check_settings : ActivationAttempt → ActivationSettings → World → Outcome
unfolding abandon
check_settings a s w =
    if not (is_auth_mode_valid s)
    then go_on (abandon a false none login_failed unsupported_auth_mode) w
    else if text_eq s.auth_mode (codes "sso") && not a.interactive
    then go_on (abandon a false none login_failed interactive_sso_needed) w
    else go_on (new_client a s ∷ []) w

-- `waitForSetupKeySecret` up to the wait, for the answer of `registerActivationPrompt`.
unfoldable pub ask_setup_key :
    ActivationAttempt → ActivationSettings → ℕ → ℕ → Bool × World → Outcome
unfolding abandon
ask_setup_key a s client channel (false, w) =
    go_on (abandon a false (some client) login_failed prompt_unavailable) w
ask_setup_key a s client channel (true, w) =
    go_on
      (emit (secrets_required setup_key_required_message (setup_key_prompt_hints a.id))
        ∷ await_setup_key a s client channel
        ∷ [])
      w

-- `authenticate` up to `Login`.
unfoldable pub start_authentication : ActivationAttempt → ActivationSettings → ℕ → World → Outcome
unfolding abandon
start_authentication a s client w =
    let prompt : ActivationPrompt = record {
      activation_id = a.id;
      kind = setup_key;
      channel = w.next_channel;
    } in
    let v = record w { next_channel = suc w.next_channel } in
    if not (should_login s a.interactive)
    then go_on (update a s client ∷ []) w
    else if not (needs_setup_key_secret s)
    then go_on (login a s client ∷ []) w
    else if not a.interactive
    then go_on (abandon a false (some client) login_failed missing_setup_key) w
    else ask_setup_key a s client w.next_channel (register_activation_prompt prompt v)

-- `waitForSetupKeySecret` behind the value that it has received.
unfoldable pub receive_setup_key :
    ActivationAttempt → ActivationSettings → ℕ → ℕ → Option ActivationSettings → World → Outcome
unfolding abandon
receive_setup_key a s client channel none w = go_on (await_setup_key a s client channel ∷ []) w
receive_setup_key a s client channel (some delivered) w =
    let merged = merge_prompt_settings s delivered in
    let v = record w { delivered = remove_delivery channel w.delivered } in
    if is_empty (trim_space merged.setup_key)
    then go_on (abandon a false (some client) login_failed missing_setup_key) v
    else go_on (login a merged client ∷ []) v

-- `authenticate` behind the answer of `Login`.
unfoldable pub after_login :
    ActivationAttempt → ActivationSettings → ℕ → LoginResponse → World → Outcome
unfolding abandon
after_login a s client response w =
    if not response.needs_sso_login
    then go_on (update a s client ∷ []) w
    else if not a.interactive
    then go_on (abandon a false (some client) login_failed interactive_sso_needed) w
    else go_on
        (emit (login_banner (format_sso_login_banner response))
          ∷ sso_prompt a response
          ∷ wait_sso a s client
          ∷ [])
        w

-- `startSSOPrompt` behind `registerActivationPrompt`.
unfoldable pub ask_sso : ActivationAttempt → LoginResponse → Bool × World → Outcome
ask_sso a response (false, w) = go_on [] w
ask_sso a response (true, w) =
    go_on (emit (secrets_required sso_required_message (sso_prompt_hints a.id response)) ∷ []) w

-- `classifyUpFailure`.
abbrev pub classify_up_failure : Bool → PluginFailure
classify_up_failure authentication_required =
    if authentication_required then login_failed else connect_failed

-- One round of `waitForReady`, for a status answer.
unfoldable pub check_ready : ActivationAttempt → ℕ → ProfileRef → Status.Mapping → World → Outcome
unfolding abandon
check_ready a client p m w =
    if Status.ready m
    then go_on (emit_config a client p ∷ []) w
    else if Status.has_failed m
    then go_on (abandon a true (some client) connect_failed daemon_failed) w
    else go_on (ready_tick a client p ∷ []) w

-- `runActivation` behind `completeActivation`, which has started a monitor with this context.
unfoldable pub after_completion : ActivationAttempt → ℕ → ℕ → Option ℕ × World → Outcome
unfolding finish_activation_attempt
after_completion a client context (none, w) =
    go_on (finish_activation_attempt a false true (some client)) w
after_completion a client context (some session, w) = record {
  next = set_active_state session ∷ finish_activation_attempt a true true (some client);
  spawned = monitor context client session 0 ∷ [];
  world = w;
}

-- The head of the loop of `monitorStatus`.
abbrev pub monitor_status : ℕ → ℕ → ℕ → ℕ → World → Outcome
monitor_status context client session failures w =
    if is_cancelled context w
    then go_on [] w
    else go_on (poll context client session failures ∷ []) w

-- `pollDaemonStatus` behind an error, and the count of failures behind it.
abbrev pub poll_failed : ℕ → ℕ → ℕ → ℕ → World → Outcome
poll_failed context client session failures w =
    if is_cancelled context w
    then go_on [] w
    else go_on (threshold context client session (failures + 1) ∷ []) w

abbrev pub status_poll_failure_threshold : ℕ
status_poll_failure_threshold = 3

-- `stopAfterStatusPollFailureThreshold`.
abbrev pub stop_after_threshold : ℕ → ℕ → ℕ → ℕ → World → Outcome
stop_after_threshold context client session failures w =
    if ltb failures status_poll_failure_threshold
    then go_on (wait_poll context client session failures ∷ []) w
    else if is_cancelled context w
    then go_on [] w
    else go_on (fail_session session ∷ []) w

-- `waitForStatusPollInterval` where it is told that the context is done.
abbrev pub wait_interrupted : ℕ → ℕ → ℕ → ℕ → World → Outcome
wait_interrupted context client session failures w =
    if is_cancelled context w
    then go_on [] w
    else go_on (wait_poll context client session failures ∷ []) w

-- The `switch` of `pollDaemonStatus`.
unfoldable pub after_poll : ℕ → ℕ → ℕ → Status.Words.State → List Op
after_poll context client session Status.Words.State.connected =
    set_state started ∷ wait_poll context client session 0 ∷ []
after_poll context client session Status.Words.State.connecting =
    set_state starting ∷ wait_poll context client session 0 ∷ []
after_poll context client session Status.Words.State.disconnected =
    set_state stopped ∷ clear_session session ∷ []
after_poll context client session Status.Words.State.failed =
    emit (failure connect_failed) ∷ set_state stopped ∷ clear_session session ∷ []
after_poll context client session Status.Words.State.unknown =
    wait_poll context client session 0 ∷ []

-- `failActiveSessionAfterStatusThreshold` behind its section under the lock.
unfoldable pub after_failed_session : Option FailedSession × World → Outcome
after_failed_session (none, w) = go_on [] w
after_failed_session (some f, w) =
    go_on
      (cancel_some f.monitor
        (emit (failure connect_failed) ∷ (announce stopped f.changed ++ close_some f.client)))
      w
