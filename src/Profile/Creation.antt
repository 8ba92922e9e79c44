-- ===== src/Profile/Creation.antt =====
-- internal/netbird/profile/profile.go: `EnsureExists` creates missing profiles and no others.
use network_manager_vpn_plug.Prelude.{
  ℕ, ◌+◌, ◌<◌, false, ◌||◌, List, [], ◌∷◌, ◌≡◌, refl, arith, Text, text_eq, is_empty, if◌then◌else◌,
  ◌==◌, ◌⊎◌, inl, inr, length, Result, ok, err,
}
use network_manager_vpn_plug.Go.Unicode.{Tables}
use network_manager_vpn_plug.Go.Strings.{trim_space}
use network_manager_vpn_plug.Go.Trim.{trim_space-trim_space}
use network_manager_vpn_plug.Daemon.{ProfileRef, empty, handle}
use network_manager_vpn_plug.Daemon.Messages.{Features, Profile, RpcError}
use network_manager_vpn_plug.Profile.Defs.{
  ProfileError, ambiguous, not_found, Client, trim_profile_ref, matching_profiles_by_name,
  only_match, resolve_existing_profile, create_missing, ensure_exists, run_bind, wrapped,
  create_failed, created_ref,
}
use network_manager_vpn_plug.Profile.Fill.{trim_profile_ref_idem}

-- How many listed profiles have this name, blanks around either name aside.
abbrev pub count_named : List Profile → Text → ℕ
count_named [] name = 0
count_named (p ∷ ps) name =
    (if text_eq (trim_space p.name) (trim_space name) then 1 else 0) + count_named ps name

length-matching :
    (ps : List Profile) (name : Text)
    → length (matching_profiles_by_name ps name) ≡ count_named ps name
unfolding matching_profiles_by_name
length-matching [] name = refl
length-matching (p ∷ ps) name = ground (arith, length-matching ps name)

only_match-length :
    (d : ProfileRef) (ms : List Profile)
    → ((length ms ≡ 0) × (only_match d ms ≡ err (not_found d)))
      ⊎ ((length ms ≡ 1) × ((r : ProfileRef) × (only_match d ms ≡ ok r)))
      ⊎ ((1 < length ms) × (only_match d ms ≡ err (ambiguous d (length ms))))
unfolding only_match
only_match-length d [] = inl (refl, refl)
only_match-length d (m ∷ []) = inr (inl (refl, (_, refl)))
only_match-length d (m ∷ n ∷ ms) = inr (inr (omega arith, refl))

wrapped_world :
    {W A B : Type 0} (wrap : RpcError → ProfileError) (x : Result RpcError A × W) (g : A → B)
    → (run_bind (wrapped wrap x) (λ c t. (ok (g c), t))).1 ≡ x.1
wrapped_world wrap (ok a, w) g = refl
wrapped_world wrap (err e, w) g = refl

module _ (tables : Tables) (client : Client) where
  open client use {World, get_features, list_profiles, add_profile}

  module _ (desired : ProfileRef) (w : World) (f : Features) (v : World) (ps : List Profile)
      (u : World) (asked : get_features w ≡ (ok f, v)) (enabled : f.disable_profiles ≡ false)
      (named : is_empty (trim_space desired.profile_name) ≡ false)
      (owned : is_empty (trim_space desired.username) ≡ false)
      (listed : list_profiles (trim_space desired.username) v ≡ (ok ps, u)) where
    handle_named : is_empty (handle (trim_profile_ref desired)) ≡ false
    unfolding handle trim_profile_ref
    handle_named = ground (arith, trim_space-trim_space desired.profile_name)

    existing_eq : resolve_existing_profile tables client (trim_profile_ref desired) v ≡ (
      only_match
          (trim_profile_ref desired)
          (matching_profiles_by_name ps (trim_space desired.profile_name)),
      u,
    )
    unfolding resolve_existing_profile
    existing_eq =
        rw (trim_profile_ref_idem desired, handle_named)
          (unfold trim_profile_ref in rw (owned, listed, named))

    complete :
        (empty (trim_profile_ref desired)
          || is_empty (trim_profile_ref desired).profile_name
          || is_empty (trim_profile_ref desired).username)
        ≡ false
    unfolding empty trim_profile_ref
    complete =
        ground (
          arith,
          trim_space-trim_space desired.profile_name,
          trim_space-trim_space desired.username,
        )

    abbrev matches : List Profile
    matches = matching_profiles_by_name ps (trim_space desired.profile_name)

    ensure_eq :
        ensure_exists tables client desired w
        ≡ create_missing tables client
            (trim_profile_ref desired)
            (only_match (trim_profile_ref desired) matches, u)
    unfolding ensure_exists
    ensure_eq = rw (asked, enabled, complete, existing_eq)

    count_trim : length matches ≡ count_named ps desired.profile_name
    unfolding matching_profiles_by_name
    count_trim =
        rw (← length-matching ps desired.profile_name)
          (unfold matching_profiles_by_name in rw (trim_space-trim_space desired.profile_name) refl)

    -- With profiles enabled, for a desired name and user that are not blank and a listing that
    -- succeeds, `AddProfile` is called exactly if no listed profile of the user has the name, once and
    -- with the trimmed reference; otherwise the listing is the last call.
    pub creates_missing : (ensure_exists tables client desired w).1 ≡ (
        if count_named ps desired.profile_name == 0
        then (add_profile (trim_profile_ref desired) u).1
        else u)
    unfolding create_missing
    creates_missing = elim (only_match-length (trim_profile_ref desired) matches) [
      | inl (n, e) ↦
          rw (ensure_eq, e)
            (rw
              (wrapped_world create_failed (add_profile (trim_profile_ref desired) u)
                (created_ref (trim_profile_ref desired)))
              (ground (arith, count_trim)))
      | inr (inl (n, (r, e))) ↦ rw (ensure_eq, e) (ground (arith, count_trim))
      | inr (inr (n, e)) ↦ rw (ensure_eq, e) (ground (arith, count_trim))
    ]

    -- Under the same conditions, more than one listed profile with the name is an error that counts
    -- them, and nothing is created.
    pub ensure_exists_ambiguous :
        1 < count_named ps desired.profile_name
        → ensure_exists tables client desired w
          ≡ (err (ambiguous (trim_profile_ref desired) (count_named ps desired.profile_name)), u)
    unfolding create_missing
    ensure_exists_ambiguous h = elim (only_match-length (trim_profile_ref desired) matches) [
      | inl (n, e) ↦ absurd (omega (arith, count_trim))
      | inr (inl (n, (r, e))) ↦ absurd (omega (arith, count_trim))
      | inr (inr (n, e)) ↦ rw (ensure_eq, e, count_trim)
    ]
