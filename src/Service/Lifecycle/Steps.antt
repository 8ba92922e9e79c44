-- ===== src/Service/Lifecycle/Steps.antt =====
-- internal/nmplugin/service.go: every operation of every thread gives its guarantee.
use network_manager_vpn_plug.Prelude.{ℕ, ◌+◌, ◌≤◌, false, ◌≡◌, ◌==◌, refl, arith, bit}
use network_manager_vpn_plug.Go.Unicode.{Tables}
use network_manager_vpn_plug.Settings.Parse.{parse_activation_settings}
use network_manager_vpn_plug.Status.{map_status}
use network_manager_vpn_plug.Service.Exec.{exec}
use network_manager_vpn_plug.Service.Locked.{
  disconnect_locked, fail_active_session, received, set_state_for_active_session,
  clear_prompt_for_activation,
}
use network_manager_vpn_plug.Service.Program.{
  ActivationAttempt, Reply, deadline, login_is, status_is, Op, set_state, cancel_context, reserve,
  disconnect, set_failure, new_secrets, begin, authenticate, await_setup_key, login, sso_prompt,
  wait_ready, complete, set_active_state, clear_prompt, finish_failed, clear_session, fail_session,
}
use network_manager_vpn_plug.Service.Lifecycle.Endings.{
  cancel_context-Ended, clear_active_session-Ended, disconnect-Guaranteed, disconnect_locked-Ended,
  fail_active_session-FailedPast, fail_session-Guaranteed, new_secrets_locked-Ended,
  set_failure_locked-Ended, Same-Ended,
}
use network_manager_vpn_plug.Service.Lifecycle.Guarantee.{
  Guaranteed, Plain-Guaranteed, Ended-Guaranteed,
}
use network_manager_vpn_plug.Service.Lifecycle.Slots.{
  complete-Guaranteed, finish_failed-Guaranteed, start_activation-Guaranteed,
}
use network_manager_vpn_plug.Service.Lifecycle.Ties.{
  Fresh, IsOwn, Tied, after_login-Plain, ask_sso-Plain, check_ready-Plain, check_settings-Plain,
  names, receive_setup_key-Plain, set_state_value-Same, start_authentication-Plain,
}
use network_manager_vpn_plug.Service.Shared.{Shared}
use network_manager_vpn_plug.Service.Slot.{claims}
use network_manager_vpn_plug.Service.State.{World}

-- An attempt that is under way does not have a context that is to come.
own-past :
    (k : ℕ) (w : World) (a : ActivationAttempt)
    → Fresh k w
    → IsOwn w a
    → w.next_context ≤ k
    → (k == a.context) ≡ false
own-past k w a f own h =
    let e : names k w.activation_cancel ≡ false = f.no_activation h in ground arith

module _ (tables : Tables) (k n : ℕ) (w : World) (sh : Shared w) (f : Fresh k w) where
  pub exec-Guaranteed :
      (op : Op) (r : Reply)
      → claims op + n ≡ bit w.activating
      → Tied k w op
      → Guaranteed k n op w (exec tables op r w)
  unfolding exec
  exec-Guaranteed (reserve connection details interactive) r h t =
      start_activation-Guaranteed k n w sh f connection details interactive (omega arith)
  exec-Guaranteed disconnect r h t =
      disconnect-Guaranteed k n w f (disconnect_locked w) (disconnect_locked-Ended k n w f)
  exec-Guaranteed set_failure r h t =
      Ended-Guaranteed k n set_failure w _ _ refl (set_failure_locked-Ended k n w f) tt tt
  exec-Guaranteed (new_secrets connection) r h t =
      Ended-Guaranteed k n (new_secrets connection) w _ _ refl
        (new_secrets_locked-Ended k n w f connection (parse_activation_settings tables connection))
        tt tt
  exec-Guaranteed (cancel_context c) r h t =
      Ended-Guaranteed k n (cancel_context c) w _ _ refl (cancel_context-Ended k n w f c t) tt tt
  exec-Guaranteed finish_failed r h t = finish_failed-Guaranteed k n w sh f h
  exec-Guaranteed (complete a client p) r h t = complete-Guaranteed k n w sh f a client p h t
  exec-Guaranteed (clear_session session) r h t =
      Ended-Guaranteed k n (clear_session session) w _ _ refl
        (clear_active_session-Ended k n w f sh session) (ground arith) tt
  exec-Guaranteed (fail_session session) r h t =
      fail_session-Guaranteed k n w f session (fail_active_session session w)
        (fail_active_session-FailedPast k n w f session)
  exec-Guaranteed (begin a) r h t =
      Plain-Guaranteed k n (begin a) w _ f (check_settings-Plain k w a t (own-past k w a f t) _)
  exec-Guaranteed (authenticate a s client) r h t =
      Plain-Guaranteed k n (authenticate a s client) w _ f
        (start_authentication-Plain k w a t (own-past k w a f t) s client)
  exec-Guaranteed (login a s client) (login_is response) h t =
      Plain-Guaranteed k n (login a s client) w _ f
        (after_login-Plain k w a t (own-past k w a f t) s client response)
  exec-Guaranteed (await_setup_key a s client channel) deadline h t =
      let past = own-past k w a f t in
      Plain-Guaranteed k n (await_setup_key a s client channel) w _ f (ground arith)
  exec-Guaranteed (await_setup_key a s client channel) r h t =
      Plain-Guaranteed k n (await_setup_key a s client channel) w _ f
        (receive_setup_key-Plain k w a t (own-past k w a f t) s client channel (received channel w))
  exec-Guaranteed (sso_prompt a response) r h t =
      Plain-Guaranteed k n (sso_prompt a response) w _ f (ask_sso-Plain k w a response _)
  exec-Guaranteed (wait_ready a client p) (status_is resp) h t =
      Plain-Guaranteed k n (wait_ready a client p) w _ f
        (check_ready-Plain k w a t (own-past k w a f t) client p (map_status tables resp))
  exec-Guaranteed (set_state st) r h t =
      Ended-Guaranteed k n (set_state st) w _ _ refl
        (Same-Ended k n w f (set_state st) _ (set_state_value-Same st w)) (ground arith) tt
  exec-Guaranteed (set_active_state session) r h t =
      Plain-Guaranteed k n (set_active_state session) w _ f
        (unfold set_state_for_active_session in ground arith)
  exec-Guaranteed (clear_prompt id) r h t =
      Plain-Guaranteed k n (clear_prompt id) w _ f
        (unfold clear_prompt_for_activation in ground arith)
  exec-Guaranteed op r h t = Plain-Guaranteed k n op w _ f (ground arith)
