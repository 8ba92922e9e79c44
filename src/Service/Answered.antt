-- ===== src/Service/Answered.antt =====
-- internal/nmplugin/service.go and prompts.go, `waitForSetupKeySecret` and `NewSecrets`: a prompt for a
-- setup key, and the answer to it.
use network_manager_vpn_plug.Prelude.{
  ℕ, suc, Bool, true, false, List, [], ◌∷◌, none, some, ◌≡◌, ◌==◌, ◌||◌, ◌∙◌, refl, ap, sym, subst,
  arith, Bool-cases, inl, inr, is_empty, text_eq,
}
use network_manager_vpn_plug.Go.Strings.{trim_space}
use network_manager_vpn_plug.Go.Unicode.{Tables}
use network_manager_vpn_plug.Settings.Parse.{
  ActivationSettings, needs_setup_key_secret, should_login,
}
use network_manager_vpn_plug.Service.Activated.Login.{alone_go}
use network_manager_vpn_plug.Service.Channels.{Numbered, find_delivery-new, run-Numbered}
use network_manager_vpn_plug.Service.Exec.{exec}
use network_manager_vpn_plug.Service.Locked.{
  handle_new_secrets_locked, handle_new_secrets_of, new_secrets_at, new_secrets_locked, received,
  register_activation_prompt, remove_delivery,
}
use network_manager_vpn_plug.Service.Monitor.{alone}
use network_manager_vpn_plug.Service.Phases.{
  ask_setup_key, go_on, receive_setup_key, start_authentication,
}
use network_manager_vpn_plug.Service.Program.{
  ActivationAttempt, Op, authenticate, await_setup_key, emit, login, proceed,
}
use network_manager_vpn_plug.Service.Prompts.{
  format_activation_id, merge_prompt_settings, setup_key_prompt_hints, setup_key_required_message,
}
use network_manager_vpn_plug.Service.State.{
  ActivationPrompt, Message, World, secrets_required, setup_key,
}
use network_manager_vpn_plug.Service.System.{Event, new_service, run}

module _ (tables : Tables) (a : ActivationAttempt) (s : ActivationSettings) (client : ℕ) where
  -- What is sent to ask for the key.
  abbrev pub asking : Message
  asking = secrets_required setup_key_required_message (setup_key_prompt_hints a.id)

  abbrev asked_prompt : ℕ → ActivationPrompt
  asked_prompt channel = record { activation_id = a.id; kind = setup_key; channel = channel }

  -- The service that has asked.
  abbrev asked : World → World
  asked w = record w {
    prompt = some (asked_prompt w.next_channel);
    next_channel = suc w.next_channel;
    messages = asking ∷ w.messages;
  }

  needed_login : needs_setup_key_secret s ≡ true → should_login s a.interactive ≡ true
  unfolding needs_setup_key_secret should_login
  needed_login h = ground arith

  asking_step :
      (w : World)
      → needs_setup_key_secret s ≡ true
      → a.interactive ≡ true
      → w.activating ≡ true
      → (a.id == w.activation_id) ≡ true
      → exec tables (authenticate a s client) proceed w
        ≡ go_on (emit asking ∷ await_setup_key a s client w.next_channel ∷ []) (record w {
          prompt = some (asked_prompt w.next_channel);
          next_channel = suc w.next_channel;
        })
  unfolding exec start_authentication ask_setup_key register_activation_prompt
  asking_step w needed interactive on same =
      rw (needed_login needed, needed, interactive, on, same) refl

  asked-alone :
      (w : World)
      → needs_setup_key_secret s ≡ true
      → a.interactive ≡ true
      → w.activating ≡ true
      → (a.id == w.activation_id) ≡ true
      → alone tables (authenticate a s client ∷ []) (proceed ∷ proceed ∷ []) w
        ≡ (await_setup_key a s client w.next_channel ∷ [], asked w)
  unfolding alone exec
  asked-alone w needed interactive on same =
      alone_go tables (authenticate a s client) [] _ proceed (proceed ∷ []) w _
        (asking_step w needed interactive on same)

  -- Settings that answer the prompt: they name the activation or none.
  abbrev pub answers : ActivationSettings → Bool
  answers answer =
      is_empty answer.prompt_activation_id
      || text_eq answer.prompt_activation_id (format_activation_id a.id)

  answered :
      (w : World) (answer : ActivationSettings)
      → Numbered w
      → answers answer ≡ true
      → new_secrets_locked answer (asked w)
        ≡ record (asked w) { prompt = none; delivered = (w.next_channel, answer) ∷ w.delivered }
  unfolding new_secrets_locked new_secrets_at handle_new_secrets_locked handle_new_secrets_of
  answered w answer k h =
      let empty = find_delivery-new w.next_channel w.delivered k.values in
      elim (Bool-cases (is_empty answer.prompt_activation_id)) [
        | inl e ↦ simp (e, empty) refl
        | inr e ↦
            let named : text_eq answer.prompt_activation_id (format_activation_id a.id) ≡ true =
              ground arith in
            simp (e, named, empty) refl
      ]

  received_alone :
      (channel : ℕ) (answer : ActivationSettings) (w v : World)
      → v ≡ record w { delivered = (channel, answer) ∷ w.delivered }
      → is_empty (trim_space (merge_prompt_settings s answer).setup_key) ≡ false
      → alone tables (await_setup_key a s client channel ∷ []) (proceed ∷ []) v
        ≡ (login a (merge_prompt_settings s answer) client ∷ [], w)
  unfolding alone exec received receive_setup_key remove_delivery
  received_alone channel answer w v e key =
      let same : (channel == channel) ≡ true = ground arith in
      subst
        (λ u.
          alone tables (await_setup_key a s client channel ∷ []) (proceed ∷ []) u
          ≡ (login a (merge_prompt_settings s answer) client ∷ [], w))
        (sym e) (simp (same, key) refl)

  -- The service behind a run.
  abbrev pub reached : List Event → World
  reached es = (run tables new_service es).world

  -- The thread that has asked, and what is left for it.
  abbrev pub asking_thread : World → List Op × World
  asking_thread w = alone tables (authenticate a s client ∷ []) (proceed ∷ proceed ∷ []) w

  -- After any run, an interactive activation under way whose settings need a setup key asks for it and
  -- waits. `NewSecrets` with settings that name this activation, or none, takes the prompt away and
  -- hands them to the waiting thread: where they bring a key that is not blank, it goes on to the login
  -- with its own settings and that key, and nothing is left in the channel.
  pub prompt_answered :
      (es : List Event) (answer : ActivationSettings)
      → needs_setup_key_secret s ≡ true
      → a.interactive ≡ true
      → (reached es).activating ≡ true
      → (a.id == (reached es).activation_id) ≡ true
      → answers answer ≡ true
      → is_empty (trim_space (merge_prompt_settings s answer).setup_key) ≡ false
      → ((asking_thread (reached es)).1.messages ≡ asking ∷ (reached es).messages)
        × ((asking_thread (reached es)).1.delivered ≡ (reached es).delivered)
        × (alone tables
              (asking_thread (reached es)).0
              (proceed ∷ [])
              (new_secrets_locked answer (asking_thread (reached es)).1)
            ≡ (
              login a (merge_prompt_settings s answer) client ∷ [],
              record (asking_thread (reached es)).1 { prompt = none },
            ))
  prompt_answered es answer needed interactive on same named key =
      let w = reached es in
      let done = asked-alone w needed interactive on same in
      (
        ap (λ x. x.1.messages) done,
        ap (λ x. x.1.delivered) done,
        ap (λ x. alone tables x.0 (proceed ∷ []) (new_secrets_locked answer x.1)) done
            ∙ received_alone w.next_channel answer (record (asked w) { prompt = none })
                (new_secrets_locked answer (asked w))
                (answered w answer (run-Numbered tables es) named) key
            ∙ ap
                (λ x. (
                  login a (merge_prompt_settings s answer) client ∷ [],
                  record x.1 { prompt = none },
                ))
                (sym done),
      )
