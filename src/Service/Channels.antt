-- ===== src/Service/Channels.antt =====
-- internal/nmplugin/prompts.go and service.go: the channels of the prompts. A channel is new when a
-- prompt for a setup key is made.
use network_manager_vpn_plug.Prelude.{
  ℕ, suc, ◌≤◌, false, List, [], ◌∷◌, Option, none, some, ◌≡◌, ◌==◌, refl, arith, All, Bool-cases,
  inl, inr,
}
use network_manager_vpn_plug.Go.Unicode.{Tables}
use network_manager_vpn_plug.Settings.Parse.{ActivationSettings, parse_activation_settings}
use network_manager_vpn_plug.Service.Exec.{exec}
use network_manager_vpn_plug.Service.Locked.{
  clear_active_session, clear_prompt_for_activation, complete_activation, disconnect_locked,
  fail_active_session, find_delivery, finish_failed_activation, handle_new_secrets_locked,
  handle_new_secrets_of, new_secrets_at, new_secrets_locked, received, register_activation_prompt,
  remove_delivery, reserve_activation, set_failure_locked, set_state_for_active_session,
  set_state_value,
}
use network_manager_vpn_plug.Service.Phases.{
  after_completion, after_failed_session, after_login, ask_setup_key, ask_sso, check_ready,
  check_settings, disconnect_client, receive_setup_key, start_activation, start_authentication,
}
use network_manager_vpn_plug.Service.Program.{
  ActivationAttempt, Op, Reply, authenticate, await_setup_key, begin, clear_prompt, clear_session,
  complete, deadline, disconnect, fail_session, finish_failed, login, login_is, new_secrets,
  reserve, set_active_state, set_failure, set_state, sso_prompt, status_is, wait_ready,
}
use network_manager_vpn_plug.Service.Slot.{claims, thread_of-claims}
use network_manager_vpn_plug.Service.System.{Event, new_service, run}
use network_manager_vpn_plug.Service.Threads.{run-keeps}
use network_manager_vpn_plug.Service.State.{ActivationPrompt, PromptKind, World, setup_key, sso}

abbrev pub Delivery : Type 0
Delivery = ℕ × ActivationSettings

abbrev pub IsBelow : ℕ → Delivery → Type 0
IsBelow n (c, s) = suc c ≤ n

-- The channel of a prompt for a setup key has been made.
abbrev pub KindBelow : PromptKind → ℕ → ℕ → Type 0
KindBelow setup_key channel n = suc channel ≤ n
KindBelow sso channel n = Unit

abbrev pub PromptBelow : Option ActivationPrompt → ℕ → Type 0
PromptBelow none n = Unit
PromptBelow (some p) n = KindBelow p.kind p.channel n

-- The channels that hold a value, and the one of the prompt, have been made.
pub record Numbered (w : World) : Type 0 where
  pub values : All (IsBelow w.next_channel) w.delivered
  pub current : PromptBelow w.prompt w.next_channel

-- A channel that is made now is empty.
pub find_delivery-new :
    (n : ℕ) (ds : List Delivery) → All (IsBelow n) ds → find_delivery n ds ≡ none
find_delivery-new n [] h = refl
find_delivery-new n ((c, s) ∷ ds) (h, hs) =
    let apart : (c == n) ≡ false = ground arith in rw (apart, find_delivery-new n ds hs) refl

All-remove_delivery :
    (n channel : ℕ) (ds : List Delivery)
    → All (IsBelow n) ds
    → All (IsBelow n) (remove_delivery channel ds)
unfolding remove_delivery
All-remove_delivery n channel [] h = tt
All-remove_delivery n channel ((c, s) ∷ ds) (h, hs) = elim (Bool-cases (c == channel)) [
  | inl e ↦ rw e hs
  | inr e ↦ rw e (h, All-remove_delivery n channel ds hs)
]

All-suc : (n : ℕ) (ds : List Delivery) → All (IsBelow n) ds → All (IsBelow (suc n)) ds
All-suc n [] h = tt
All-suc n ((c, s) ∷ ds) (h, hs) = (omega arith, All-suc n ds hs)

module _ (w : World) (k : Numbered w) where
  handle_new_secrets_of-Numbered :
      (kind : PromptKind) (p : ActivationPrompt) (s : ActivationSettings)
      → KindBelow kind p.channel w.next_channel
      → Numbered (handle_new_secrets_of kind p s w)
  unfolding handle_new_secrets_of
  handle_new_secrets_of-Numbered setup_key p s h = ground arith
  handle_new_secrets_of-Numbered sso p s h = ground arith

  new_secrets_at-Numbered :
      (x : Option ActivationPrompt) (s : ActivationSettings)
      → PromptBelow x w.next_channel
      → Numbered (new_secrets_at x s w)
  unfolding new_secrets_at handle_new_secrets_locked
  new_secrets_at-Numbered none s h = k
  new_secrets_at-Numbered (some p) s h = ground (arith, handle_new_secrets_of-Numbered p.kind p s h)

  start_authentication-Numbered :
      (a : ActivationAttempt) (s : ActivationSettings) (client : ℕ)
      → Numbered (start_authentication a s client w).world
  unfolding start_authentication ask_setup_key register_activation_prompt
  start_authentication-Numbered a s client =
      ground (arith, All-suc w.next_channel w.delivered k.values)

  receive_setup_key-Numbered :
      (a : ActivationAttempt) (s : ActivationSettings) (client channel : ℕ)
      (x : Option ActivationSettings)
      → Numbered (receive_setup_key a s client channel x w).world
  unfolding receive_setup_key
  receive_setup_key-Numbered a s client channel none = k
  receive_setup_key-Numbered a s client channel (some t) =
      ground (arith, All-remove_delivery w.next_channel channel w.delivered k.values)

-- Each operation keeps it.
exec-Numbered :
    (tables : Tables) (op : Op) (r : Reply) (w : World)
    → Numbered w
    → Numbered (exec tables op r w).world
unfolding exec
exec-Numbered tables (set_state st) r w k = unfold set_state_value in ground arith
exec-Numbered tables (reserve connection details interactive) r w k =
    unfold start_activation reserve_activation in ground arith
exec-Numbered tables (set_active_state session) r w k =
    unfold set_state_for_active_session in ground arith
exec-Numbered tables disconnect r w k = unfold disconnect_client disconnect_locked in ground arith
exec-Numbered tables set_failure r w k = unfold set_failure_locked in ground arith
exec-Numbered tables (new_secrets connection) r w k =
    unfold new_secrets_locked in
    new_secrets_at-Numbered w k w.prompt (parse_activation_settings tables connection) k.current
exec-Numbered tables (begin a) r w k = unfold check_settings in ground arith
exec-Numbered tables (authenticate a s client) r w k = start_authentication-Numbered w k a s client
exec-Numbered tables (await_setup_key a s client channel) deadline w k = k
exec-Numbered tables (await_setup_key a s client channel) _ w k =
    receive_setup_key-Numbered w k a s client channel (received channel w)
exec-Numbered tables (login a s client) (login_is response) w k = unfold after_login in ground arith
exec-Numbered tables (sso_prompt a response) r w k =
    unfold ask_sso register_activation_prompt in ground arith
exec-Numbered tables (wait_ready a client p) (status_is resp) w k =
    unfold check_ready in ground arith
exec-Numbered tables (complete a client p) r w k =
    unfold after_completion complete_activation in ground arith
exec-Numbered tables (clear_prompt id) r w k = unfold clear_prompt_for_activation in ground arith
exec-Numbered tables finish_failed r w k = unfold finish_failed_activation in ground arith
exec-Numbered tables (clear_session session) r w k = unfold clear_active_session in ground arith
exec-Numbered tables (fail_session session) r w k =
    unfold after_failed_session fail_active_session in ground arith
exec-Numbered tables _ _ w k = ground arith

abbrev NumberedOnly : World → ℕ → Type 0
NumberedOnly w n = Numbered w

pub run-Numbered : (tables : Tables) (es : List Event) → Numbered (run tables new_service es).world
run-Numbered tables es =
    run-keeps claims NumberedOnly tables (λ op r w n k. exec-Numbered tables op r w k)
      thread_of-claims new_service es (ground arith)
