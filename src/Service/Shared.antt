-- ===== src/Service/Shared.antt =====
-- internal/nmplugin/service.go: what holds of the fields of `Service` whenever the lock is free.
use network_manager_vpn_plug.Prelude.{ℕ, Bool, true, Option, none, some, ◌≡◌, arith, is_some}
use network_manager_vpn_plug.Daemon.{ProfileRef}
use network_manager_vpn_plug.Settings.Parse.{ActivationSettings}
use network_manager_vpn_plug.Service.Locked.{
  set_state_value, reserve_activation, finish_failed_activation, complete_activation,
  set_state_for_active_session, clear_active_session, fail_active_session, disconnect_locked,
  set_failure_locked, new_secrets_locked, handle_new_secrets_locked, new_secrets_at,
  register_activation_prompt, clear_prompt_for_activation,
}
use network_manager_vpn_plug.Service.State.{ServiceState, ActivationPrompt, World}

-- A prompt belongs to the activation that is under way.
abbrev pub PromptOk : Option ActivationPrompt → Bool → ℕ → Type 0
PromptOk none activating id = Unit
PromptOk (some p) activating id = (activating ≡ true) × (p.activation_id ≡ id)

-- While an activation is under way there is no client; an activation is under way exactly while it
-- can be cancelled; a monitor can be cancelled exactly while there is a client.
pub record Shared (w : World) : Type 0 where
  pub idle_client : w.activating ≡ true → w.client ≡ none
  pub cancellable : is_some w.activation_cancel ≡ w.activating
  pub monitored : is_some w.monitor_cancel ≡ is_some w.client
  pub prompt_live : PromptOk w.prompt w.activating w.activation_id

pub set_state_value-Shared :
    (st : ServiceState) (w : World) → Shared w → Shared (set_state_value st w).1
unfolding set_state_value
set_state_value-Shared st w h = ground arith

pub reserve_activation-Shared : (w : World) → Shared w → Shared (reserve_activation w).1
unfolding reserve_activation
reserve_activation-Shared w h = ground arith

pub finish_failed_activation-Shared : (w : World) → Shared w → Shared (finish_failed_activation w)
unfolding finish_failed_activation
finish_failed_activation-Shared w h = ground arith

pub complete_activation-Shared :
    (context client : ℕ) (p : ProfileRef) (w : World)
    → Shared w
    → Shared (complete_activation context client p w).1
unfolding complete_activation
complete_activation-Shared context client p w h = ground arith

pub set_state_for_active_session-Shared :
    (session : ℕ) (st : ServiceState) (w : World)
    → Shared w
    → Shared (set_state_for_active_session session st w).1
unfolding set_state_for_active_session
set_state_for_active_session-Shared session st w h = ground arith

pub clear_active_session-Shared :
    (session : ℕ) (w : World) → Shared w → Shared (clear_active_session session w).1
unfolding clear_active_session
clear_active_session-Shared session w h = ground arith

pub fail_active_session-Shared :
    (session : ℕ) (w : World) → Shared w → Shared (fail_active_session session w).1
unfolding fail_active_session
fail_active_session-Shared session w h = ground arith

pub disconnect_locked-Shared : (w : World) → Shared w → Shared (disconnect_locked w).1
unfolding disconnect_locked
disconnect_locked-Shared w h = ground arith

pub set_failure_locked-Shared : (w : World) → Shared w → Shared (set_failure_locked w)
unfolding set_failure_locked
set_failure_locked-Shared w h = ground arith

pub new_secrets_locked-Shared :
    (s : ActivationSettings) (w : World) → Shared w → Shared (new_secrets_locked s w)
unfolding new_secrets_locked new_secrets_at handle_new_secrets_locked
new_secrets_locked-Shared s w h = ground arith

pub register_activation_prompt-Shared :
    (p : ActivationPrompt) (w : World) → Shared w → Shared (register_activation_prompt p w).1
unfolding register_activation_prompt
register_activation_prompt-Shared p w h = ground arith

pub clear_prompt_for_activation-Shared :
    (id : ℕ) (w : World) → Shared w → Shared (clear_prompt_for_activation id w)
unfolding clear_prompt_for_activation
clear_prompt_for_activation-Shared id w h = ground arith
