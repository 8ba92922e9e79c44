-- ===== src/Activation/Names.antt =====
-- internal/netbird/profile/profile.go: `PrepareActivation` and `EnsureExists` keep to the profile that is
-- named.
use network_manager_vpn_plug.Prelude.{
  false, ◌||◌, ◌≡◌, refl, ◌∙◌, subst, arith, Text, is_empty, Result, ok, err, Bool-cases, inl, inr,
}
use network_manager_vpn_plug.Go.Strings.{trim_space}
use network_manager_vpn_plug.Go.Trim.{trim_space-trim_space}
use network_manager_vpn_plug.Go.Unicode.{Tables}
use network_manager_vpn_plug.Daemon.{ProfileRef, empty}
use network_manager_vpn_plug.Daemon.Matching.{Honours}
use network_manager_vpn_plug.Daemon.Messages.{Features, RpcError}
use network_manager_vpn_plug.Profile.Defs.{
  Client, ProfileError, active_failed, create_failed, check_running_conflict, create_missing,
  created_ref, ensure_exists, fill, is_not_found, prepare_activation, resolve_existing_profile,
  trim_profile_ref, wrapped, features_failed,
}
use network_manager_vpn_plug.Profile.Follows.{
  Follows, Follows-fill, Follows-trim, run_bind-ok, ok_value,
}
use network_manager_vpn_plug.Profile.Honour.{existing-Follows}

-- The name and the user that are asked for, where they are not blank.
pub record Names (r d : ProfileRef) : Type 0 where
  pub name : Honours r.profile_name d.profile_name
  pub user : Honours r.username d.username

pub Names_of_Follows : (r d : ProfileRef) → Follows r d → Names r d
Names_of_Follows r d f = record { name = f.name; user = f.user }

pub Names-self : (d : ProfileRef) → Names d d
Names-self d = record { name = λ _. refl; user = λ _. refl }

pub Names_trans : (a b c : ProfileRef) → Names a b → Names b c → Names a c
Names_trans a b c f g = record {
  name = λ h. f.name (rw (g.name h) h) ∙ g.name h;
  user = λ h. f.user (rw (g.user h) h) ∙ g.user h;
}

pub wrapped-ok :
    {W A : Type 0} (wrap : RpcError → ProfileError) (x : Result RpcError A × W) {a : A} {v : W}
    → wrapped wrap x ≡ (ok a, v)
    → x ≡ (ok a, v)
wrapped-ok wrap (ok b, w) h = cc
wrapped-ok wrap (err e, w) h = absurd (cc)

pub Names-trim : (d r : ProfileRef) → Names r (trim_profile_ref d) → Names r d
Names-trim d r f =
    Names_trans r (trim_profile_ref d) d f
      (Names_of_Follows (trim_profile_ref d) d (Follows-trim d))

pub fill_trim : (a b : Text) → a ≡ b → trim_space (fill (trim_space a) b) ≡ trim_space b
fill_trim a b h = ground (arith, trim_space-trim_space a)

module _ (client : Client) where
  open client use {World, get_features, add_profile}

  -- The daemon has profiles, whenever it is asked.
  abbrev pub ProfilesEnabled : Type 0
  ProfilesEnabled =
      (w v : World) (f : Features) → get_features w ≡ (ok f, v) → f.disable_profiles ≡ false

  -- A profile that is added has the name and the user that it was added with.
  abbrev pub AddsNamed : Type 0
  AddsNamed =
      (d c : ProfileRef) (w v : World)
      → add_profile d w ≡ (ok c, v)
      → (c.profile_name ≡ d.profile_name) × (c.username ≡ d.username)

module _ (tables : Tables) (client : Client) where
  open client use {World, get_features, get_active_profile, list_profiles, add_profile}

  pub prepare-Follows :
      (d : ProfileRef) (w v : World) {r : ProfileRef}
      → ProfilesEnabled client
      → prepare_activation tables client d w ≡ (ok r, v)
      → Follows r d
  unfolding prepare_activation
  prepare-Follows d w v {r} enabled h =
      let t = trim_profile_ref d in
      let (f, u, found, h') = run_bind-ok (wrapped features_failed (get_features w)) _ h in
      let on : f.disable_profiles ≡ false = enabled w u f (wrapped-ok features_failed _ found) in
      elim (Bool-cases (empty t)) [
        | inl e ↦ subst (λ x. Follows x d) (ok_value (rw (on, e) at h')) (Follows-trim d)
        | inr e ↦
            let (a, b, _, h₂) =
              run_bind-ok (wrapped active_failed (get_active_profile u)) _ (rw (on, e) at h') in
            let (_, _, _, h₃) =
              run_bind-ok (check_running_conflict tables client (trim_profile_ref a) t b) _ h₂ in
            subst (λ x. Follows x d) (ok_value h₃)
              (Follows-fill (trim_profile_ref a) t d (Follows-trim d))
      ]

  pub created-Names :
      (d c : ProfileRef)
      → c.profile_name ≡ d.profile_name
      → c.username ≡ d.username
      → Names (created_ref d c) d
  unfolding created_ref
  created-Names d c n u = record {
    name = λ _. fill_trim c.profile_name d.profile_name n;
    user = λ _. fill_trim c.username d.username u;
  }

  pub missing-Names :
      (t : ProfileRef) (x : Result ProfileError ProfileRef × World) {r : ProfileRef} {v : World}
      → ((q : ProfileRef) (z : World) → x ≡ (ok q, z) → Names q t)
      → AddsNamed client
      → create_missing tables client t x ≡ (ok r, v)
      → Names r t
  unfolding create_missing
  missing-Names t (ok q, z) {r} found adds h = subst (λ x. Names x t) (ok_value h) (found q z refl)
  missing-Names t (err e, z) {r} found adds h = elim (Bool-cases (is_not_found e)) [
    | inl m ↦
        let (c, y, added, h') =
          run_bind-ok (wrapped create_failed (add_profile t z)) _ (rw m at h) in
        let (n, u) = adds t c z y (wrapped-ok create_failed _ added) in
        subst (λ x. Names x t) (ok_value h') (created-Names t c n u)
    | inr m ↦ ground arith
  ]

  pub ensure-Names :
      (d : ProfileRef) (w v : World) {r : ProfileRef}
      → ProfilesEnabled client
      → AddsNamed client
      → ensure_exists tables client d w ≡ (ok r, v)
      → Names r d
  unfolding ensure_exists
  ensure-Names d w v {r} enabled adds h =
      let t = trim_profile_ref d in
      let (f, u, found, h') = run_bind-ok (wrapped features_failed (get_features w)) _ h in
      let on : f.disable_profiles ≡ false = enabled w u f (wrapped-ok features_failed _ found) in
      elim (Bool-cases (empty t || is_empty t.profile_name || is_empty t.username)) [
        | inl e ↦
            subst (λ x. Names x d) (ok_value (rw (on, e) at h'))
              (Names_of_Follows (trim_profile_ref d) d (Follows-trim d))
        | inr e ↦ Names-trim d r (
            missing-Names t (resolve_existing_profile tables client t u)
              (λ q z k. Names_of_Follows q t (existing-Follows tables client t u z k)) adds
              (rw (on, e) at h'))
      ]
