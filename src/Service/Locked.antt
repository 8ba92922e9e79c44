-- ===== src/Service/Locked.antt =====
-- internal/nmplugin/service.go and prompts.go: the sections that hold `lifecycleMu` or `mu`. Each is
-- one step of its thread.
use network_manager_vpn_plug.Prelude.{
  ℕ, suc, Bool, true, false, not, ◌&&◌, ◌||◌, List, [], ◌∷◌, Option, none, some, ◌==◌,
  if◌then◌else◌, text_eq, is_empty, is_some,
}
use network_manager_vpn_plug.Daemon.{ProfileRef, no_profile}
use network_manager_vpn_plug.Settings.Parse.{ActivationSettings}
use network_manager_vpn_plug.Service.State.{
  ServiceState, stopped, state_number, PromptKind, setup_key, sso, ActivationPrompt, World,
  next_u64, is_cancelled, cancel,
}
use network_manager_vpn_plug.Service.Prompts.{format_activation_id}

-- `setStateValue`; the flag says whether the state has changed.
unfoldable pub set_state_value : ServiceState → World → Bool × World
set_state_value st w =
    if state_number w.state == state_number st then (false, w) else (true, record w { state = st })

-- `reserveActivation`: the context and the ID of the new activation, or none.
unfoldable pub reserve_activation : World → Option (ℕ × ℕ) × World
reserve_activation w = if w.activating || is_some w.client then (none, w) else (
  some (w.next_context, next_u64 w.activation_id),
  record w {
    activation_id = next_u64 w.activation_id;
    activating = true;
    activation_cancel = some w.next_context;
    prompt = none;
    next_context = suc w.next_context;
  },
)

unfoldable pub finish_failed_activation : World → World
finish_failed_activation w = record w {
  activating = false;
  activation_cancel = none;
  prompt = none;
}

-- `startMonitorLocked`; the context of the new monitor is `next_context` of the world before.
unfoldable pub start_monitor_locked : World → World
start_monitor_locked w = record w {
  cancelled = cancel w.monitor_cancel w.cancelled;
  monitor_cancel = some w.next_context;
  next_context = suc w.next_context;
}

-- `completeActivation` for an attempt with this context: the session's ID, or none.
unfoldable pub complete_activation : ℕ → ℕ → ProfileRef → World → Option ℕ × World
unfolding start_monitor_locked
complete_activation context client profile w =
    if is_cancelled context w || not w.activating then (none, w) else (
      some (next_u64 w.session_id),
      start_monitor_locked (record w {
        activating = false;
        activation_cancel = none;
        prompt = none;
        client = some client;
        active_profile = profile;
        session_id = next_u64 w.session_id;
      }),
    )

-- The session is the current one, and it has a client.
abbrev is_active_session : ℕ → World → Bool
is_active_session session w = w.session_id == session && is_some w.client

unfoldable pub set_state_for_active_session : ℕ → ServiceState → World → Bool × World
unfolding set_state_value
set_state_for_active_session session st w =
    if not (is_active_session session w) then (false, w) else set_state_value st w

-- `clearActiveSession`: the client to close.
unfoldable pub clear_active_session : ℕ → World → Option ℕ × World
clear_active_session session w =
    if w.session_id == session
    then (
      w.client,
      record w {
        cancelled = cancel w.monitor_cancel w.cancelled;
        monitor_cancel = none;
        client = none;
        active_profile = no_profile;
      },
    )
    else (none, w)

-- What `failActiveSessionAfterStatusThreshold` takes out of the service.
pub record FailedSession : Type 0 where
  pub monitor : Option ℕ
  pub client : Option ℕ
  pub changed : Bool

unfoldable pub fail_active_session : ℕ → World → Option FailedSession × World
unfolding set_state_value
fail_active_session session w =
    if not (is_active_session session w)
    then (none, w)
    else let (changed, v) =
        set_state_value stopped
          (record w { monitor_cancel = none; client = none; active_profile = no_profile }) in
      (some (record { monitor = w.monitor_cancel; client = w.client; changed = changed }), v)

-- The section of `Disconnect`: the client to bring down.
unfoldable pub disconnect_locked : World → Option ℕ × World
disconnect_locked w = (
  w.client,
  record w {
    cancelled = cancel w.monitor_cancel (cancel w.activation_cancel w.cancelled);
    monitor_cancel = none;
    client = none;
    active_profile = no_profile;
    prompt = none;
    session_id = next_u64 w.session_id;
    activation_id = next_u64 w.activation_id;
  },
)

unfoldable pub set_failure_locked : World → World
set_failure_locked w = record w {
  cancelled = cancel w.activation_cancel w.cancelled;
  prompt = none;
}

abbrev pub find_delivery : ℕ → List (ℕ × ActivationSettings) → Option ActivationSettings
find_delivery channel [] = none
find_delivery channel ((c, s) ∷ rest) = if c == channel then some s else find_delivery channel rest

-- A send that gives up where the channel's one place is taken.
abbrev pub send :
    ℕ → ActivationSettings → List (ℕ × ActivationSettings) → List (ℕ × ActivationSettings)
send channel s delivered =
    if is_some (find_delivery channel delivered) then delivered else (channel, s) ∷ delivered

-- The value in a channel, if there is one.
unfoldable pub received : ℕ → World → Option ActivationSettings
received channel w = find_delivery channel w.delivered

unfoldable pub remove_delivery : ℕ → List (ℕ × ActivationSettings) → List (ℕ × ActivationSettings)
remove_delivery channel [] = []
remove_delivery channel ((c, s) ∷ rest) =
    if c == channel then rest else (c, s) ∷ remove_delivery channel rest

unfoldable pub handle_new_secrets_of :
    PromptKind → ActivationPrompt → ActivationSettings → World → World
handle_new_secrets_of setup_key p s w = record w {
  prompt = none;
  delivered = send p.channel s w.delivered;
}
handle_new_secrets_of sso p s w =
    if not s.sso_continue && not s.sso_cancel
    then w
    else if s.sso_cancel
    then record w { prompt = none; cancelled = cancel w.activation_cancel w.cancelled }
    else record w { prompt = none }

unfoldable pub handle_new_secrets_locked : ActivationPrompt → ActivationSettings → World → World
unfolding handle_new_secrets_of
handle_new_secrets_locked p = handle_new_secrets_of p.kind p

-- The section of `NewSecrets` for the prompt that is found.
unfoldable pub new_secrets_at : Option ActivationPrompt → ActivationSettings → World → World
new_secrets_at none s w = w
new_secrets_at (some p) s w =
    if is_empty s.prompt_activation_id
    then handle_new_secrets_locked p s w
    else if not (text_eq s.prompt_activation_id (format_activation_id p.activation_id))
    then w
    else handle_new_secrets_locked p s w

unfoldable pub new_secrets_locked : ActivationSettings → World → World
new_secrets_locked s w = new_secrets_at w.prompt s w

-- `registerActivationPrompt`.
unfoldable pub register_activation_prompt : ActivationPrompt → World → Bool × World
register_activation_prompt p w =
    if not w.activating || not (p.activation_id == w.activation_id)
    then (false, w)
    else (true, record w { prompt = some p })

abbrev is_prompt_of : ℕ → Option ActivationPrompt → Bool
is_prompt_of id none = false
is_prompt_of id (some p) = p.activation_id == id

unfoldable pub clear_prompt_for_activation : ℕ → World → World
clear_prompt_for_activation id w =
    if is_prompt_of id w.prompt then record w { prompt = none } else w
