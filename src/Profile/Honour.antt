-- ===== src/Profile/Honour.antt =====
-- internal/netbird/profile/profile.go: the profile that `Resolve` picks is the one asked for.
use network_manager_vpn_plug.Prelude.{
  false, not, ◌||◌, List, ◌≡◌, ap, subst, is_empty, if◌then◌else◌, inl, inr, Bool-cases, Result, ok,
  err,
}
use network_manager_vpn_plug.Go.Unicode.{Tables}
use network_manager_vpn_plug.Go.Strings.{trim_space}
use network_manager_vpn_plug.Go.Trim.{trim_space-trim_space}
use network_manager_vpn_plug.Daemon.{ProfileRef, empty, handle, matches_desired}
use network_manager_vpn_plug.Daemon.Messages.{Features, Profile, RpcError}
use network_manager_vpn_plug.Profile.Defs.{
  Client, trim_profile_ref, matching_profiles_by_name, matching_profiles_by_id, only_match,
  check_running_conflict, resolve_existing_profile, resolve, resolve_active, run_bind, wrapped,
  fill_missing_profile_fields, list_failed, active_failed,
}
use network_manager_vpn_plug.Profile.Follows.{
  Follows, Follows-trim, Follows-fill, named_match, identified_match, Follows-trim_right,
  Follows-of_empty, Follows-self, unmatched, run_bind-ok, ok_value,
}

module _ (t : ProfileRef) (clean : trim_space t.profile_name ≡ t.profile_name) {W : Type 0} where
  listed-Follows :
      (x : Result RpcError (List Profile) × W) {r : ProfileRef} {v : W}
      → run_bind (wrapped list_failed x) (λ profiles u. (
        only_match t (
            if not (is_empty t.profile_name)
            then matching_profiles_by_name profiles t.profile_name
            else matching_profiles_by_id profiles t.id),
        u,
      ))
        ≡ (ok r, v)
      → Follows r t
  listed-Follows (err e, u) h = absurd (cc)
  listed-Follows (ok ps, u) h = elim (Bool-cases (is_empty t.profile_name)) [
    | inl blank ↦ identified_match t ps (rw clean blank) (ap (λ p. p.0) (rw blank at h))
    | inr named ↦ named_match t ps (rw clean named) (ap (λ p. p.0) (rw named at h))
  ]

module _ (tables : Tables) (client : Client) where
  open client use {World, get_features, get_active_profile, list_profiles}

  pub existing-Follows :
      (d : ProfileRef) (w v : World) {r : ProfileRef}
      → resolve_existing_profile tables client d w ≡ (ok r, v)
      → Follows r d
  unfolding resolve_existing_profile
  existing-Follows d w v {r} h =
      let t = trim_profile_ref d in
      elim (Bool-cases (is_empty (handle t) || is_empty t.username)) [
        | inl e ↦ subst (λ x. Follows x d) (ok_value (rw e at h)) (Follows-trim d)
        | inr e ↦ Follows-trim_right r d (
            listed-Follows t (unfold trim_profile_ref in trim_space-trim_space d.profile_name)
              (list_profiles t.username w) (rw e at h))
      ]

  -- `Resolve` behind the lookup of a profile that the active one does not match.
  looked_up :
      (d a : ProfileRef) (u v : World) {r : ProfileRef}
      → matches_desired a (fill_missing_profile_fields a d) ≡ false
      → run_bind
          (resolve_existing_profile tables client (fill_missing_profile_fields a d) u)
          (λ resolved t. (ok (fill_missing_profile_fields a resolved), t))
        ≡ (ok r, v)
      → Follows r d
  looked_up d a u v {r} n h =
      let (resolved, t, found, h') =
        run_bind-ok (resolve_existing_profile tables client (fill_missing_profile_fields a d) u) _
          h in
      let followed = existing-Follows (trim_profile_ref d) u t (rw (unmatched a d n) at found) in
      subst (λ x. Follows x d) (ok_value h')
        (Follows-fill a resolved d (Follows-trim_right resolved d followed))

  active-Follows :
      (d a : ProfileRef) (w v : World) {r : ProfileRef}
      → resolve_active tables client d a w ≡ (ok r, v)
      → Follows r d
  unfolding resolve_active
  active-Follows d a w v {r} h = elim (Bool-cases (empty d)) [
    | inl e ↦ Follows-of_empty r d e
    | inr e ↦
        let (_, u, checked, h') =
          run_bind-ok (check_running_conflict tables client a d w) _ (rw e at h) in
        elim (Bool-cases (matches_desired a (fill_missing_profile_fields a d))) [
          | inl m ↦
              subst (λ x. Follows x d) (ok_value (rw m at h')) (Follows-fill a d d (Follows-self d))
          | inr n ↦ looked_up d a u v n (rw n at h')
        ]
  ]

  -- While the daemon has profiles, the profile that `Resolve` returns has the name and the user that
  -- were asked for, where they are not blank, and the ID too if no name was asked for.
  pub resolve-Follows :
      (desired : ProfileRef) (w : World) {f : Features} {v : World} {r : ProfileRef} {u : World}
      → get_features w ≡ (ok f, v)
      → f.disable_profiles ≡ false
      → resolve tables client desired w ≡ (ok r, u)
      → Follows r desired
  unfolding resolve
  resolve-Follows desired w {f} {v} {r} {u} asked enabled h =
      let (active, t, found, h') =
        run_bind-ok (wrapped active_failed (get_active_profile v)) _ (rw (asked, enabled) at h) in
      Follows-trim_right r desired
        (active-Follows (trim_profile_ref desired) (trim_profile_ref active) t u h')
