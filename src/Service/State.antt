-- ===== src/Service/State.antt =====
-- internal/nmplugin/types.go and the fields of `Service` in service.go, with what they refer to: the
-- contexts and the clients of the process, and the messages sent on the bus.
use network_manager_vpn_plug.Prelude.{
  ℕ, ◌+◌, ◌%◌, ◌^◌, Bool, false, ◌||◌, List, [], ◌∷◌, Option, none, some, ◌==◌, Text,
}
use network_manager_vpn_plug.Daemon.{ProfileRef}
use network_manager_vpn_plug.Settings.Parse.{ActivationSettings}

pub data ServiceState : Type 0 where
  unknown init shutdown starting started stopping stopped : ServiceState

-- The number of a state on the bus, as in NMVpnServiceState.
abbrev pub state_number : ServiceState → ℕ
state_number unknown = 0
state_number init = 1
state_number shutdown = 2
state_number starting = 3
state_number started = 4
state_number stopping = 5
state_number stopped = 6

pub data PluginFailure : Type 0 where
  login_failed connect_failed bad_ip_config : PluginFailure

pub data PromptKind : Type 0 where
  setup_key sso : PromptKind

-- `activationPrompt`; `channel` names its channel `result`.
pub record ActivationPrompt : Type 0 where
  pub activation_id : ℕ
  pub kind : PromptKind
  pub channel : ℕ

-- What is sent on the bus: the signals, and the error replies of `Connect` and `Disconnect`.
pub data Message : Type 0 where
  state_changed properties_changed : ServiceState → Message
  failure : PluginFailure → Message
  login_banner : Text → Message
  secrets_required : Text → List Text → Message
  config : Message
  already_active vpn_failed : Message

-- The first fields are those of `Service`; a cancel function is the number of its context, and a
-- client the number of its connection. The others are the process around it: the contexts that are
-- cancelled, the values in the channels of prompts, the clients that were closed, and the messages,
-- the latest first. `next_context`, `next_client` and `next_channel` number the next ones.
pub record World : Type 0 where
  pub state : ServiceState
  pub activating : Bool
  pub activation_cancel : Option ℕ
  pub monitor_cancel : Option ℕ
  pub client : Option ℕ
  pub active_profile : ProfileRef
  pub session_id : ℕ
  pub activation_id : ℕ
  pub prompt : Option ActivationPrompt
  pub cancelled : List ℕ
  pub delivered : List (ℕ × ActivationSettings)
  pub closed : List ℕ
  pub messages : List Message
  pub next_context : ℕ
  pub next_client : ℕ
  pub next_channel : ℕ

-- A uint64 counter, one further.
unfoldable pub next_u64 : ℕ → ℕ
next_u64 n = (n + 1) % 2 ^ 64

unfoldable pub member : ℕ → List ℕ → Bool
member n [] = false
member n (m ∷ ms) = n == m || member n ms

-- `ctx.Err() != nil`, for a context without a deadline.
abbrev pub is_cancelled : ℕ → World → Bool
is_cancelled context w = member context w.cancelled

abbrev pub cancel : Option ℕ → List ℕ → List ℕ
cancel none cancelled = cancelled
cancel (some context) cancelled = context ∷ cancelled
