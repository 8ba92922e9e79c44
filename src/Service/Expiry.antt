-- ===== src/Service/Expiry.antt =====
-- internal/nmplugin/service.go, `runActivation`: an activation whose deadline has passed ends.
use network_manager_vpn_plug.Prelude.{
  ℕ, zero, suc, ◌≤◌, ◌<◌, Bool, true, false, List, [], ◌∷◌, ◌++◌, Option, none, some, ◌≡◌, refl,
  arith, bit, All, All-append,
}
use network_manager_vpn_plug.Go.Unicode.{Tables}
use network_manager_vpn_plug.Daemon.Messages.{LoginResponse}
use network_manager_vpn_plug.Settings.Parse.{
  ActivationSettings, merge_details, parse_activation_settings,
}
use network_manager_vpn_plug.Service.Exec.{exec}
use network_manager_vpn_plug.Service.Locked.{complete_activation, register_activation_prompt}
use network_manager_vpn_plug.Service.Phases.{
  Outcome, after_completion, ask_setup_key, ask_sso, check_settings, start_authentication,
}
use network_manager_vpn_plug.Service.Program.{
  ActivationAttempt, Reply, deadline, refused, Op, set_state, emit_state_changed, emit, down, close,
  cancel_context, begin, new_client, prepare, authenticate, await_setup_key, login, wait_sso,
  update, sso_prompt, resolve, up, wait_ready, ready_tick, emit_config, complete, set_active_state,
  clear_prompt, finish_failed,
}
use network_manager_vpn_plug.Service.Slot.{claims, exec-claims}
use network_manager_vpn_plug.Service.State.{World, setup_key, sso}
use network_manager_vpn_plug.Service.Threads.{total, total-append}

-- The operations that the thread of an activation makes, with a bound for the steps that each leads to
-- once the deadline has passed; 0 for those of other threads.
abbrev pub rank : Op → ℕ
rank (emit _) = 1
rank (down _) = 1
rank (close _) = 1
rank (cancel_context _) = 1
rank (clear_prompt _) = 1
rank finish_failed = 1
rank (emit_state_changed _) = 2
rank (set_state _) = 3
rank (set_active_state _) = 3
rank (sso_prompt _ _) = 2
rank (complete _ _ _) = 6
rank (new_client _ _) = 11
rank (prepare _ _ _) = 11
rank (await_setup_key _ _ _ _) = 11
rank (login _ _ _) = 11
rank (wait_sso _ _ _) = 11
rank (resolve _ _ _) = 11
rank (up _ _ _) = 11
rank (emit_config _ _ _) = 11
rank (ready_tick _ _ _) = 11
rank (wait_ready _ _ _) = 12
rank (update _ _ _) = 12
rank (begin _) = 12
rank (authenticate _ _ _) = 13
rank _ = 0

abbrev pub IsActivation : Op → Type 0
IsActivation op = 0 < rank op

-- What a thread is told once its deadline has passed: its waits are over, and its calls fail.
abbrev pub expired : Op → Reply
expired (await_setup_key _ _ _ _) = deadline
expired (ready_tick _ _ _) = deadline
expired _ = refused false

-- The outcome of a step whose operations have this rank at most.
abbrev Bounded : ℕ → Outcome → Type 0
Bounded n o = (total rank o.next ≤ n) × All IsActivation o.next × (total claims o.spawned ≡ 0)

check_settings_bound :
    (a : ActivationAttempt) (s : ActivationSettings) (w : World) → Bounded 11 (check_settings a s w)
unfolding check_settings
check_settings_bound a s w = ground arith

ask_setup_key_bound :
    (a : ActivationAttempt) (s : ActivationSettings) (client channel : ℕ) (x : Bool × World)
    → Bounded 12 (ask_setup_key a s client channel x)
unfolding ask_setup_key
ask_setup_key_bound a s client channel (false, w) = ground arith
ask_setup_key_bound a s client channel (true, w) = ground arith

start_authentication_bound :
    (a : ActivationAttempt) (s : ActivationSettings) (client : ℕ) (w : World)
    → Bounded 12 (start_authentication a s client w)
unfolding start_authentication
start_authentication_bound a s client w = ground (
  arith,
  ask_setup_key_bound a s client w.next_channel (
      register_activation_prompt
        (record { activation_id = a.id; kind = setup_key; channel = w.next_channel })
        (record w { next_channel = suc w.next_channel })),
)

ask_sso_bound :
    (a : ActivationAttempt) (response : LoginResponse) (x : Bool × World)
    → Bounded 1 (ask_sso a response x)
unfolding ask_sso
ask_sso_bound a response (false, w) = ground arith
ask_sso_bound a response (true, w) = ground arith

after_completion_bound :
    (a : ActivationAttempt) (client context : ℕ) (x : Option ℕ × World)
    → Bounded 5 (after_completion a client context x)
unfolding after_completion
after_completion_bound a client context (none, w) = ground arith
after_completion_bound a client context (some session, w) = ground arith

-- Each step of an expired activation leads to fewer steps than before.
abbrev Shrinks : Op → Outcome → Type 0
Shrinks op o =
    (total rank o.next < rank op) × All IsActivation o.next × (total claims o.spawned ≡ 0)

exec-Shrinks :
    (tables : Tables) (op : Op) (w : World)
    → IsActivation op
    → Shrinks op (exec tables op (expired op) w)
unfolding exec
exec-Shrinks tables (begin a) w h =
    let b =
      check_settings_bound a
        (merge_details tables (parse_activation_settings tables a.connection) a.details) w in
    (omega arith, b.1, b.2)
exec-Shrinks tables (authenticate a s client) w h =
    let b = start_authentication_bound a s client w in (omega arith, b.1, b.2)
exec-Shrinks tables (sso_prompt a response) w h =
    let b =
      ask_sso_bound a response
        (register_activation_prompt (record { activation_id = a.id; kind = sso; channel = 0 }) w) in
    (omega arith, b.1, b.2)
exec-Shrinks tables (complete a client p) w h =
    let b =
      after_completion_bound a client w.next_context (complete_activation a.context client p w) in
    (omega arith, b.1, b.2)
exec-Shrinks tables (set_state st) w h = ground arith
exec-Shrinks tables _ w h = ground arith

module _ (tables : Tables) where
  -- A thread alone, for so many steps, each told what `expired` says.
  pub expire : ℕ → List Op → World → List Op × World
  expire zero ops w = (ops, w)
  expire (suc fuel) [] w = ([], w)
  expire (suc fuel) (op ∷ ops) w =
      let o = exec tables op (expired op) w in expire fuel (o.next ++ ops) o.world

  -- An activation whose deadline has passed ends within a bounded number of steps, wherever its thread
  -- stands, and the slot that it holds is free then.
  pub expire_ends :
      (fuel : ℕ) (ops : List Op) (w : World)
      → All IsActivation ops
      → total claims ops ≡ bit w.activating
      → total rank ops ≤ fuel
      → ((expire fuel ops w).0 ≡ []) × ((expire fuel ops w).1.activating ≡ false)
  unfolding expire
  expire_ends zero [] w all held enough = (refl, ground arith)
  expire_ends zero (op ∷ ops) w (h, all) held enough = absurd (omega arith)
  expire_ends (suc fuel) [] w all held enough = (refl, ground arith)
  expire_ends (suc fuel) (op ∷ ops) w (h, all) held enough =
      let o = exec tables op (expired op) w in
      let s = exec-Shrinks tables op w h in
      let k = exec-claims tables op (expired op) w (total claims ops) held in
      expire_ends fuel (o.next ++ ops) o.world (All-append IsActivation o.next ops s.1 all)
        (omega (arith, k, s, total-append claims o.next ops))
        (omega (arith, s, total-append rank o.next ops))
