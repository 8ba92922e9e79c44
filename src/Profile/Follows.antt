-- ===== src/Profile/Follows.antt =====
-- internal/netbird/profile/profile.go: when a profile is the one asked for.
use network_manager_vpn_plug.Prelude.{
  Bool, true, false, not, ◌||◌, List, [], ◌∷◌, ◌≡◌, refl, ap, ◌∙◌, sym, arith, text_eq_iff,
  is_empty, inl, inr, Bool-cases, filter, Result, ok, err,
}
use network_manager_vpn_plug.Go.Strings.{trim_space}
use network_manager_vpn_plug.Go.Trim.{trim_space-trim_space}
use network_manager_vpn_plug.Daemon.{ProfileRef, empty, matches_desired}
use network_manager_vpn_plug.Daemon.Messages.{Profile}
use network_manager_vpn_plug.Daemon.Matching.{Honours, matches_desired_iff}
use network_manager_vpn_plug.Profile.Defs.{
  ProfileError, trim_profile_ref, matching_profiles_by_name, matching_profiles_by_id,
  profile_ref_from_match, only_match, run_bind, fill_missing_profile_fields,
}
use network_manager_vpn_plug.Profile.Fill.{fill_missing_eq}

-- The name and the user asked for are honoured, and the ID too where no name is asked for: a name
-- is looked up again, and its profile may have another ID by then.
pub record Follows (r d : ProfileRef) : Type 0 where
  pub name : Honours r.profile_name d.profile_name
  pub user : Honours r.username d.username
  pub id : is_empty (trim_space d.profile_name) ≡ true → Honours r.id d.id

pub Follows-trim : (d : ProfileRef) → Follows (trim_profile_ref d) d
unfolding trim_profile_ref
Follows-trim d = record {
  name = λ _. trim_space-trim_space d.profile_name;
  user = λ _. trim_space-trim_space d.username;
  id = λ _ _. trim_space-trim_space d.id;
}

pub Follows-of_match : (a r d : ProfileRef) → matches_desired a r ≡ true → Follows r d → Follows a d
Follows-of_match a r d m f =
    let (hid, hname, huser) = (matches_desired_iff a r).0 m in
    record {
      name = λ b. hname (rw (f.name b) b) ∙ f.name b;
      user = λ b. huser (rw (f.user b) b) ∙ f.user b;
      id = λ n b. hid (rw (f.id n b) b) ∙ f.id n b;
    }

pub Follows-trim_left : (r d : ProfileRef) → Follows r d → Follows (trim_profile_ref r) d
unfolding trim_profile_ref
Follows-trim_left r d f = record {
  name = λ b. trim_space-trim_space r.profile_name ∙ f.name b;
  user = λ b. trim_space-trim_space r.username ∙ f.user b;
  id = λ n b. trim_space-trim_space r.id ∙ f.id n b;
}

-- Filling in from the active reference keeps what is asked for.
pub Follows-fill : (a r d : ProfileRef) → Follows r d → Follows (fill_missing_profile_fields a r) d
Follows-fill a r d f =
    rw fill_missing_eq (elim (Bool-cases (empty a || not (matches_desired a r))) [
      | inl e ↦ rw e (Follows-trim_left r d f)
      | inr e ↦ rw e (Follows-trim_left a d (Follows-of_match a r d (ground arith) f))
    ])

pub filter_head {ℓ} :
    {A : Type ℓ} (p : A → Bool) (xs : List A) {m : A} {ms : List A}
    → filter p xs ≡ m ∷ ms
    → p m ≡ true
unfolding filter
filter_head p [] h = cc
filter_head p (x ∷ xs) {m} {ms} h = elim (Bool-cases (p x)) [
  | inl kept ↦ (let e : x ∷ filter p xs ≡ m ∷ ms = rw kept at h in ground arith)
  | inr dropped ↦ filter_head p xs (rw dropped at h)
]

pub only_match_ok :
    (d : ProfileRef) (ms : List Profile) {r : ProfileRef}
    → only_match d ms ≡ ok r
    → (m : Profile) × (ms ≡ m ∷ []) × (r ≡ profile_ref_from_match m d.username)
unfolding only_match
only_match_ok d [] h = cc
only_match_ok d (m ∷ []) h = (m, refl, cc)
only_match_ok d (m ∷ n ∷ ms) h = cc

pub named_match :
    (d : ProfileRef) (ps : List Profile) {r : ProfileRef}
    → is_empty (trim_space d.profile_name) ≡ false
    → only_match d (matching_profiles_by_name ps d.profile_name) ≡ ok r
    → Follows r d
unfolding matching_profiles_by_name profile_ref_from_match
named_match d ps {r} wanted h =
    let (m, one, e) = only_match_ok d _ h in
    let same = filter_head _ ps one in
    rw e (record {
      name = λ b.
          trim_space-trim_space m.name
          ∙ (text_eq_iff (trim_space m.name) (trim_space d.profile_name)).0 same;
      user = λ b. trim_space-trim_space d.username;
      id = λ n. absurd (cc);
    })

pub identified_match :
    (d : ProfileRef) (ps : List Profile) {r : ProfileRef}
    → is_empty (trim_space d.profile_name) ≡ true
    → only_match d (matching_profiles_by_id ps d.id) ≡ ok r
    → Follows r d
unfolding matching_profiles_by_id profile_ref_from_match
identified_match d ps {r} unnamed h =
    let (m, one, e) = only_match_ok d _ h in
    let same = filter_head _ ps one in
    rw e (record {
      name = λ b. absurd (cc);
      user = λ b. trim_space-trim_space d.username;
      id = λ n b.
          trim_space-trim_space m.id ∙ (text_eq_iff (trim_space m.id) (trim_space d.id)).0 same;
    })

pub Follows-trim_right : (r d : ProfileRef) → Follows r (trim_profile_ref d) → Follows r d
unfolding trim_profile_ref
Follows-trim_right r d f = record {
  name = λ b.
      f.name (rw (trim_space-trim_space d.profile_name) b) ∙ trim_space-trim_space d.profile_name;
  user = λ b. f.user (rw (trim_space-trim_space d.username) b) ∙ trim_space-trim_space d.username;
  id = λ n b.
      f.id (rw (trim_space-trim_space d.profile_name) n) (rw (trim_space-trim_space d.id) b)
      ∙ trim_space-trim_space d.id;
}

pub Follows-of_empty : (r d : ProfileRef) → empty d ≡ true → Follows r d
unfolding empty
Follows-of_empty r d h = record {
  name = λ b. absurd (ground arith);
  user = λ b. absurd (ground arith);
  id = λ n b. absurd (ground arith);
}

pub Follows-self : (d : ProfileRef) → Follows d d
Follows-self d = record { name = λ _. refl; user = λ _. refl; id = λ _ _. refl }

pub matches_desired_self : (a : ProfileRef) → matches_desired a (trim_profile_ref a) ≡ true
unfolding trim_profile_ref
matches_desired_self a = (matches_desired_iff a (trim_profile_ref a)).1 (
  λ _. sym (trim_space-trim_space a.id),
  λ _. sym (trim_space-trim_space a.profile_name),
  λ _. sym (trim_space-trim_space a.username),
)

-- A reference that the active one does not match is left as it is asked for.
pub unmatched :
    (a d : ProfileRef)
    → matches_desired a (fill_missing_profile_fields a d) ≡ false
    → fill_missing_profile_fields a d ≡ trim_profile_ref d
unmatched a d h = elim (Bool-cases (empty a || not (matches_desired a d))) [
  | inl e ↦ rw (fill_missing_eq, e)
  | inr e ↦ absurd (ground (arith, fill_missing_eq a d, matches_desired_self a))
]

pub run_bind-ok :
    {W A B : Type 0} (x : Result ProfileError A × W) (f : A → W → Result ProfileError B × W) {b : B}
    {v : W}
    → run_bind x f ≡ (ok b, v)
    → (a : A) × (u : W) × (x ≡ (ok a, u)) × (f a u ≡ (ok b, v))
run_bind-ok (ok a, u) f h = (a, u, refl, h)
run_bind-ok (err e, u) f h = absurd (cc)

pub ok_value :
    {W A : Type 0} {a b : A} {u v : W}
    → ◌≡◌ {A = Result ProfileError A × W} (ok a, u) (ok b, v)
    → a ≡ b
ok_value h = cc (ap (λ p. p.0) h)
