-- ===== src/Service/Lifecycle/Ties.antt =====
-- internal/nmplugin/service.go: the operations of an activation belong to the cancel function that is
-- set, and contexts are new when they are made.
use network_manager_vpn_plug.Prelude.{
  ℕ, ◌≤◌, Bool, false, Option, none, some, ◌≡◌, ◌==◌, ◌∙◌, arith, All,
}
use network_manager_vpn_plug.Daemon.{ProfileRef}
use network_manager_vpn_plug.Daemon.Messages.{LoginResponse}
use network_manager_vpn_plug.Settings.Parse.{ActivationSettings}
use network_manager_vpn_plug.Status
use network_manager_vpn_plug.Status.{map_status}
use network_manager_vpn_plug.Service.Phases.{
  Outcome, check_settings, ask_setup_key, start_authentication, receive_setup_key, after_login,
  ask_sso, check_ready,
}
use network_manager_vpn_plug.Service.Locked.{set_state_value, register_activation_prompt}
use network_manager_vpn_plug.Service.Program.{
  ActivationAttempt, Op, cancel_context, launch, begin, new_client, prepare, authenticate,
  await_setup_key, login, wait_sso, update, resolve, up, wait_ready, ready_tick, emit_config,
  complete,
}
use network_manager_vpn_plug.Service.Slot.{claims}
use network_manager_vpn_plug.Service.State.{ServiceState, World, ActivationPrompt, member}

abbrev pub names : ℕ → Option ℕ → Bool
names k none = false
names k (some c) = k == c

-- A context that has not been made is not cancelled and is not the one of a cancel function.
pub record Fresh (k : ℕ) (w : World) : Type 0 where
  pub alive : w.next_context ≤ k → member k w.cancelled ≡ false
  pub no_activation : w.next_context ≤ k → names k w.activation_cancel ≡ false
  pub no_monitor : w.next_context ≤ k → names k w.monitor_cancel ≡ false

-- The activation that is under way is the one of the operation.
abbrev pub IsOwn : World → ActivationAttempt → Type 0
IsOwn w a = w.activation_cancel ≡ some a.context

-- What an operation that is left has to do with the cancel function of the activation under way, and
-- with the context `k`.
abbrev pub Tied : ℕ → World → Op → Type 0
Tied k w (launch a) = IsOwn w a
Tied k w (begin a) = IsOwn w a
Tied k w (new_client a _) = IsOwn w a
Tied k w (prepare a _ _) = IsOwn w a
Tied k w (authenticate a _ _) = IsOwn w a
Tied k w (await_setup_key a _ _ _) = IsOwn w a
Tied k w (login a _ _) = IsOwn w a
Tied k w (wait_sso a _ _) = IsOwn w a
Tied k w (update a _ _) = IsOwn w a
Tied k w (resolve a _ _) = IsOwn w a
Tied k w (up a _ _) = IsOwn w a
Tied k w (wait_ready a _ _) = IsOwn w a
Tied k w (ready_tick a _ _) = IsOwn w a
Tied k w (emit_config a _ _) = IsOwn w a
Tied k w (complete a _ _) = IsOwn w a
Tied k w (cancel_context c) = w.next_context ≤ k → (k == c) ≡ false
Tied k w _ = Unit

-- Nothing changes that the phase and the contexts depend on.
pub record Same (w v : World) : Type 0 where
  pub activating : v.activating ≡ w.activating
  pub activation_cancel : v.activation_cancel ≡ w.activation_cancel
  pub monitor_cancel : v.monitor_cancel ≡ w.monitor_cancel
  pub cancelled : v.cancelled ≡ w.cancelled
  pub client : v.client ≡ w.client
  pub active_profile : v.active_profile ≡ w.active_profile
  pub next_context : v.next_context ≡ w.next_context

one : 1 ≤ 1
one = omega arith

-- An operation of an activation depends on the cancel function that is set, and no other does.
pub Tied-moved :
    (k : ℕ) (w v : World) (op : Op)
    → w.next_context ≤ v.next_context
    → (1 ≤ claims op → v.activation_cancel ≡ w.activation_cancel)
    → Tied k w op
    → Tied k v op
Tied-moved k w v (cancel_context c) g e t = λ h. t (omega arith)
Tied-moved k w v (launch a) g e t = e one ∙ t
Tied-moved k w v (begin a) g e t = e one ∙ t
Tied-moved k w v (new_client a _) g e t = e one ∙ t
Tied-moved k w v (prepare a _ _) g e t = e one ∙ t
Tied-moved k w v (authenticate a _ _) g e t = e one ∙ t
Tied-moved k w v (await_setup_key a _ _ _) g e t = e one ∙ t
Tied-moved k w v (login a _ _) g e t = e one ∙ t
Tied-moved k w v (wait_sso a _ _) g e t = e one ∙ t
Tied-moved k w v (update a _ _) g e t = e one ∙ t
Tied-moved k w v (resolve a _ _) g e t = e one ∙ t
Tied-moved k w v (up a _ _) g e t = e one ∙ t
Tied-moved k w v (wait_ready a _ _) g e t = e one ∙ t
Tied-moved k w v (ready_tick a _ _) g e t = e one ∙ t
Tied-moved k w v (emit_config a _ _) g e t = e one ∙ t
Tied-moved k w v (complete a _ _) g e t = e one ∙ t
Tied-moved k w v _ g e t = t

-- The step leaves all as it is, and the operations behind it belong to the activation under way.
abbrev pub Plain : ℕ → World → Outcome → Type 0
Plain k w o = Same w o.world × All (Tied k w) o.next × All (Tied k w) o.spawned

module _ (k : ℕ) (w : World) (a : ActivationAttempt) (own : IsOwn w a)
    (past : w.next_context ≤ k → (k == a.context) ≡ false) where
  pub check_settings-Plain : (s : ActivationSettings) → Plain k w (check_settings a s w)
  unfolding check_settings
  check_settings-Plain s = ground arith

  pub start_authentication-Plain :
      (s : ActivationSettings) (client : ℕ) → Plain k w (start_authentication a s client w)
  unfolding start_authentication ask_setup_key register_activation_prompt
  start_authentication-Plain s client = ground arith

  pub receive_setup_key-Plain :
      (s : ActivationSettings) (client channel : ℕ) (x : Option ActivationSettings)
      → Plain k w (receive_setup_key a s client channel x w)
  unfolding receive_setup_key
  receive_setup_key-Plain s client channel none = ground arith
  receive_setup_key-Plain s client channel (some t) = ground arith

  pub after_login-Plain :
      (s : ActivationSettings) (client : ℕ) (response : LoginResponse)
      → Plain k w (after_login a s client response w)
  unfolding after_login
  after_login-Plain s client response = ground arith

  pub check_ready-Plain :
      (client : ℕ) (p : ProfileRef) (m : Status.Mapping) → Plain k w (check_ready a client p m w)
  unfolding check_ready
  check_ready-Plain client p m = ground arith

pub ask_sso-Plain :
    (k : ℕ) (w : World) (a : ActivationAttempt) (response : LoginResponse) (p : ActivationPrompt)
    → Plain k w (ask_sso a response (register_activation_prompt p w))
unfolding ask_sso register_activation_prompt
ask_sso-Plain k w a response p = ground arith

pub set_state_value-Same : (st : ServiceState) (w : World) → Same w (set_state_value st w).1
unfolding set_state_value
set_state_value-Same st w = ground arith
