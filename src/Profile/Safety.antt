-- ===== src/Profile/Safety.antt =====
-- internal/netbird/profile/profile.go: no implicit switch away from a running profile, and creation
-- of missing profiles only.
use network_manager_vpn_plug.Prelude.{
  Bool, true, false, not, ◌||◌, Option, ◌≡◌, ◌∙◌, arith, if◌then◌else◌, Result, ok, err,
}
use network_manager_vpn_plug.Go.Unicode.{Tables}
use network_manager_vpn_plug.Daemon.{ProfileRef, empty, matches_desired}
use network_manager_vpn_plug.Daemon.Messages.{Features, StatusResponse}
use network_manager_vpn_plug.Status.{map_status}
use network_manager_vpn_plug.Profile.Defs.{
  ProfileError, conflict, Client, is_running, trim_profile_ref, check_running_conflict,
  prepare_activation, resolve, resolve_active, run_bind, fill_missing_profile_fields,
}
use network_manager_vpn_plug.Profile.Fill.{
  trim_profile_ref_idem, matches_desired-trim, empty-trim, fill_missing_eq,
}

-- The requested reference asks for another profile than the active one.
abbrev pub switches : ProfileRef → ProfileRef → Bool
switches active desired = not (empty active || matches_desired active desired)

module _ (tables : Tables) (client : Client) where
  open client use {World, get_features, get_active_profile, list_profiles, add_profile, status}

  check_switch :
      (a d : ProfileRef) (w : World)
      → switches a d ≡ true
      → {resp : Option StatusResponse} {v : World} → status w ≡ (ok resp, v)
      → check_running_conflict tables client a d w ≡ (
          if is_running (map_status tables resp).state
          then (err (conflict (trim_profile_ref a) (trim_profile_ref d)), v)
          else (ok tt, v))
  unfolding check_running_conflict
  check_switch a d w sw {resp} {v} st =
      rw (empty-trim a, matches_desired-trim a d, st) (ground arith)

  check_no_switch :
      (a d : ProfileRef) (w : World)
      → switches a d ≡ false
      → check_running_conflict tables client a d w ≡ (ok tt, w)
  unfolding check_running_conflict
  check_no_switch a d w sw = rw (empty-trim a, matches_desired-trim a d) (ground arith)

  module _ (desired : ProfileRef) (w : World) (f : Features) (v : World) (a : ProfileRef)
      (u : World) (asked : get_features w ≡ (ok f, v)) (enabled : f.disable_profiles ≡ false)
      (found : get_active_profile v ≡ (ok a, u)) (wanted : empty desired ≡ false) where
    prepare_eq :
        prepare_activation tables client desired w
        ≡ run_bind
            (check_running_conflict tables client (trim_profile_ref a) (trim_profile_ref desired) u)
            (λ _ t.
              (ok (fill_missing_profile_fields (trim_profile_ref a) (trim_profile_ref desired)), t))
    unfolding prepare_activation
    prepare_eq = rw (asked, enabled, empty-trim desired, wanted, found)

    resolve_eq :
        resolve tables client desired w
        ≡ resolve_active tables client (trim_profile_ref desired) (trim_profile_ref a) u
    unfolding resolve
    resolve_eq = rw (asked, enabled, found)

    resolve_conflict :
        {e : ProfileError} {t : World}
        → check_running_conflict tables client (trim_profile_ref a) (trim_profile_ref desired) u
          ≡ (err e, t)
        → resolve_active tables client (trim_profile_ref desired) (trim_profile_ref a) u
          ≡ (err e, t)
    unfolding resolve_active
    resolve_conflict h = rw (empty-trim desired, wanted, h)

    abbrev checked : Result ProfileError (Unit {0}) × World
    checked = check_running_conflict tables client (trim_profile_ref a) (trim_profile_ref desired) u

    module _ (sw : switches a desired ≡ true) {resp : Option StatusResponse} {t : World}
        (st : status u ≡ (ok resp, t)) where
      check_refused :
          is_running (map_status tables resp).state ≡ true
          → checked ≡ (err (conflict (trim_profile_ref a) (trim_profile_ref desired)), t)
      check_refused running = rw (
        check_switch (trim_profile_ref a) (trim_profile_ref desired) u
            (ground (arith, empty-trim a, matches_desired-trim a desired)) st,
        running,
        trim_profile_ref_idem a,
        trim_profile_ref_idem desired,
      )

      check_allowed : is_running (map_status tables resp).state ≡ false → checked ≡ (ok tt, t)
      check_allowed stopped = rw (
        check_switch (trim_profile_ref a) (trim_profile_ref desired) u
            (ground (arith, empty-trim a, matches_desired-trim a desired)) st,
        stopped,
      )

      -- Where the daemon has profiles and another one is active than the one asked for, and the engine
      -- is running, both `PrepareActivation` and `Resolve` fail with the conflict, after three calls.
      pub running_conflict :
          is_running (map_status tables resp).state ≡ true
          → (prepare_activation tables client desired w
              ≡ (err (conflict (trim_profile_ref a) (trim_profile_ref desired)), t))
            × (resolve tables client desired w
                ≡ (err (conflict (trim_profile_ref a) (trim_profile_ref desired)), t))
      running_conflict running = (
        rw (prepare_eq, check_refused running),
        resolve_eq ∙ resolve_conflict (check_refused running),
      )

      -- Where the engine is not running, `PrepareActivation` goes on with the profile asked for, its
      -- fields trimmed and none of them taken from the active profile.
      pub stopped_switch :
          is_running (map_status tables resp).state ≡ false
          → prepare_activation tables client desired w ≡ (ok (trim_profile_ref desired), t)
      stopped_switch stopped =
          rw
            (
              prepare_eq,
              check_allowed stopped,
              fill_missing_eq (trim_profile_ref a) (trim_profile_ref desired),
              empty-trim a,
              matches_desired-trim a desired,
              trim_profile_ref_idem desired,
            )
            (ground arith)
