-- ===== src/Service/Program.antt =====
-- internal/nmplugin/service.go: the points at which a thread of the service is interrupted. A thread
-- is the list of operations that it has left; each is one step. Calls of the daemon get their answer
-- from outside.
use network_manager_vpn_plug.Prelude.{
  ℕ, Bool, true, false, List, [], ◌∷◌, Option, none, some, if◌then◌else◌,
}
use network_manager_vpn_plug.Daemon.{ProfileRef}
use network_manager_vpn_plug.Daemon.Messages.{LoginResponse, StatusResponse}
use network_manager_vpn_plug.Settings.Values.{ConnectionSettings, VariantMap}
use network_manager_vpn_plug.Settings.Parse.{ActivationSettings}
use network_manager_vpn_plug.Service.Prompts.{interactive_sso_required_message}
use network_manager_vpn_plug.Service.State.{
  ServiceState, stopped, PluginFailure, Message, failure, login_banner,
}

-- `activationAttempt`.
pub record ActivationAttempt : Type 0 where
  pub context : ℕ
  pub id : ℕ
  pub connection : ConnectionSettings
  pub details : VariantMap
  pub interactive : Bool

-- The errors with which an activation fails.
pub data ActivationError : Type 0 where
  unsupported_auth_mode interactive_sso_needed missing_setup_key : ActivationError
  prompt_unavailable timed_out daemon_error daemon_failed : ActivationError

-- `errors.Is(err, errInteractiveSSONeeded)`.
abbrev pub is_interactive_sso_needed : ActivationError → Bool
is_interactive_sso_needed interactive_sso_needed = true
is_interactive_sso_needed _ = false

-- What a thread is told when it goes on: a call has succeeded or a wait is over (`proceed`), a call
-- has failed, with or without `ErrAuthenticationRequired`, the context of the wait is done, or the
-- answer of a call.
pub data Reply : Type 0 where
  proceed deadline : Reply
  refused : Bool → Reply
  profile_is : ProfileRef → Reply
  login_is : LoginResponse → Reply
  status_is : Option StatusResponse → Reply

pub data Op : Type 0 where
  set_state emit_state_changed : ServiceState → Op
  emit : Message → Op
  down close cancel_context : ℕ → Op
  reserve : ConnectionSettings → VariantMap → Bool → Op
  disconnect set_failure : Op
  disconnect_down : ℕ → Op
  new_secrets : ConnectionSettings → Op
  launch begin : ActivationAttempt → Op
  new_client : ActivationAttempt → ActivationSettings → Op
  prepare authenticate : ActivationAttempt → ActivationSettings → ℕ → Op
  await_setup_key : ActivationAttempt → ActivationSettings → ℕ → ℕ → Op
  login wait_sso update : ActivationAttempt → ActivationSettings → ℕ → Op
  sso_prompt : ActivationAttempt → LoginResponse → Op
  resolve : ActivationAttempt → ActivationSettings → ℕ → Op
  up wait_ready ready_tick emit_config : ActivationAttempt → ℕ → ProfileRef → Op
  complete : ActivationAttempt → ℕ → ProfileRef → Op
  set_active_state : ℕ → Op
  clear_prompt : ℕ → Op
  finish_failed : Op
  monitor poll wait_poll threshold : ℕ → ℕ → ℕ → ℕ → Op
  clear_session fail_session : ℕ → Op

-- `failActivation`.
unfoldable pub fail_activation : PluginFailure → ActivationError → List Op → List Op
fail_activation reason e rest =
    let failing = emit (failure reason) ∷ set_state stopped ∷ rest in
    if is_interactive_sso_needed e
    then emit (login_banner interactive_sso_required_message) ∷ failing
    else failing

-- Closing the client of a failed attempt, and bringing the daemon down before that if it was up.
abbrev close_all : Option ℕ → List Op
close_all none = []
close_all (some client) = close client ∷ []

abbrev pub down_if : Bool → Option ℕ → List Op → List Op
down_if true (some client) rest = down client ∷ rest
down_if _ _ rest = rest

-- `finishActivationAttempt`; the flags are `success` and `daemonUp` of `activationStatus`.
unfoldable pub finish_activation_attempt : ActivationAttempt → Bool → Bool → Option ℕ → List Op
finish_activation_attempt a true daemon_up client =
    clear_prompt a.id ∷ cancel_context a.context ∷ []
finish_activation_attempt a false daemon_up client =
    clear_prompt a.id
    ∷ down_if daemon_up client (cancel_context a.context ∷ finish_failed ∷ close_all client)

-- `failActivation` and `return` in `runActivation`.
unfoldable pub abandon :
    ActivationAttempt → Bool → Option ℕ → PluginFailure → ActivationError → List Op
unfolding fail_activation finish_activation_attempt
abandon a daemon_up client reason e =
    fail_activation reason e (finish_activation_attempt a false daemon_up client)
