-- ===== src/Profile/Defs.antt =====
-- internal/netbird/profile/profile.go, definitions. The daemon is a parameter: each call takes the
-- daemon's state to an answer and a new state, and may fail.
use network_manager_vpn_plug.Prelude.{
  ℕ, Bool, true, false, not, ◌||◌, List, [], ◌∷◌, Option, if◌then◌else◌, Text, text_eq, is_empty,
  length, filter, Result, ok, err,
}
use network_manager_vpn_plug.Go.Unicode.{Tables}
use network_manager_vpn_plug.Go.Strings.{trim_space}
use network_manager_vpn_plug.Daemon.{ProfileRef, no_profile, empty, handle, matches_desired}
use network_manager_vpn_plug.Daemon.Messages.{Features, Profile, RpcError, StatusResponse}
use network_manager_vpn_plug.Status.{map_status}
use network_manager_vpn_plug.Status.Words.{State, disconnected, failed}

-- The errors of the package, with what they wrap.
pub data ProfileError : Type 0 where
  features_failed active_failed status_failed list_failed create_failed : RpcError → ProfileError
  conflict : ProfileRef → ProfileRef → ProfileError
  not_found : ProfileRef → ProfileError
  ambiguous : ProfileRef → ℕ → ProfileError

-- `errors.Is(err, ErrNotFound)`.
abbrev pub is_not_found : ProfileError → Bool
is_not_found (not_found _) = true
is_not_found _ = false

-- `Client`, with the states of the daemon behind it.
pub record Client : Type 1 where
  pub World : Type 0
  pub get_features : World → Result RpcError Features × World
  pub get_active_profile : World → Result RpcError ProfileRef × World
  pub list_profiles : Text → World → Result RpcError (List Profile) × World
  pub add_profile : ProfileRef → World → Result RpcError ProfileRef × World
  pub status : World → Result RpcError (Option StatusResponse) × World

abbrev pub M : Type 0 → Type 0 → Type 0
M W A = W → Result ProfileError A × W

-- A call followed by code that handles its error and its answer.
abbrev pub run_bind :
    {W A B : Type 0} → Result ProfileError A × W → (A → M W B) → Result ProfileError B × W
run_bind (ok a, w) f = f a w
run_bind (err e, w) f = (err e, w)

infixl 5 ◌>>=◌ ◌>>◌
abbrev pub ◌>>=◌ : {W A B : Type 0} → M W A → (A → M W B) → M W B
◌>>=◌ m f w = run_bind (m w) f

abbrev pub ◌>>◌ : {W B : Type 0} → M W (Unit {0}) → M W B → M W B
◌>>◌ m k w = run_bind (m w) (λ _. k)

abbrev pub return : {W A : Type 0} → A → M W A
return a w = (ok a, w)

abbrev pub fail : {W A : Type 0} → ProfileError → M W A
fail e w = (err e, w)

-- A call of the daemon whose error is wrapped by `wrap`.
abbrev pub wrapped :
    {W A : Type 0} → (RpcError → ProfileError) → Result RpcError A × W → Result ProfileError A × W
wrapped wrap (ok a, w) = (ok a, w)
wrapped wrap (err e, w) = (err (wrap e), w)

unfoldable pub trim_profile_ref : ProfileRef → ProfileRef
trim_profile_ref ref = record {
  id = trim_space ref.id;
  profile_name = trim_space ref.profile_name;
  username = trim_space ref.username;
}

unfoldable pub matching_profiles_by_name : List Profile → Text → List Profile
unfolding filter text_eq
matching_profiles_by_name profiles name =
    filter (λ profile. text_eq (trim_space profile.name) (trim_space name)) profiles

unfoldable pub matching_profiles_by_id : List Profile → Text → List Profile
unfolding filter text_eq
matching_profiles_by_id profiles id =
    filter (λ profile. text_eq (trim_space profile.id) (trim_space id)) profiles

unfoldable pub profile_ref_from_match : Profile → Text → ProfileRef
profile_ref_from_match m username = record {
  id = trim_space m.id;
  profile_name = trim_space m.name;
  username = trim_space username;
}

-- `if field == "" { field = other }`.
abbrev pub fill : Text → Text → Text
fill [] other = other
fill (c ∷ s) other = c ∷ s

unfoldable pub fill_missing_profile_fields : ProfileRef → ProfileRef → ProfileRef
unfolding trim_profile_ref
fill_missing_profile_fields active desired =
    let a = trim_profile_ref active in
    let d = trim_profile_ref desired in
    if empty a || not (matches_desired a d) then d else record {
      id = fill d.id a.id;
      profile_name = fill d.profile_name a.profile_name;
      username = fill d.username a.username;
    }

-- The `switch` of `runningEngine`.
abbrev pub is_running : State → Bool
is_running disconnected = false
is_running failed = false
is_running _ = true

-- The `switch len(matches)` of `resolveExistingProfile`.
unfoldable pub only_match : ProfileRef → List Profile → Result ProfileError ProfileRef
unfolding profile_ref_from_match
only_match desired [] = err (not_found desired)
only_match desired (m ∷ []) = ok (profile_ref_from_match m desired.username)
only_match desired (m ∷ n ∷ ms) = err (ambiguous desired (length (m ∷ n ∷ ms)))

-- What `EnsureExists` returns for the answer of `AddProfile`.
unfoldable pub created_ref : ProfileRef → ProfileRef → ProfileRef
unfolding trim_profile_ref
created_ref desired created =
    let c = trim_profile_ref created in
    record {
      id = c.id;
      profile_name = fill c.profile_name desired.profile_name;
      username = fill c.username desired.username;
    }

module _ (tables : Tables) (client : Client) where
  open client use {World, get_features, get_active_profile, list_profiles, add_profile, status}

  features : M World Features
  features w = wrapped features_failed (get_features w)

  unfoldable pub running_engine : M World Bool
  running_engine = do
    resp ← λ w. wrapped status_failed (status w)
    return (is_running (map_status tables resp).state)

  unfoldable pub check_running_conflict : ProfileRef → ProfileRef → M World (Unit {0})
  unfolding running_engine trim_profile_ref
  check_running_conflict active desired w =
      let a = trim_profile_ref active in
      let d = trim_profile_ref desired in
      if empty a || matches_desired a d
      then (ok tt, w)
      else run_bind (running_engine w)
          (λ running. if running then fail (conflict a d) else return tt)

  unfoldable pub resolve_existing_profile : ProfileRef → M World ProfileRef
  resolve_existing_profile desired w =
      let d = trim_profile_ref desired in
      if is_empty (handle d) || is_empty d.username
      then (ok d, w)
      else run_bind (wrapped list_failed (list_profiles d.username w)) (λ profiles v. (
        only_match d (
            if not (is_empty d.profile_name)
            then matching_profiles_by_name profiles d.profile_name
            else matching_profiles_by_id profiles d.id),
        v,
      ))

  unfoldable pub prepare_activation : ProfileRef → M World ProfileRef
  unfolding features
  prepare_activation desired = do
    let d = trim_profile_ref desired
    f ← features
    λ v.
        if f.disable_profiles
        then (ok no_profile, v)
        else if empty d
        then (ok d, v)
        else run_bind (wrapped active_failed (get_active_profile v)) (λ active. do
          check_running_conflict (trim_profile_ref active) d
          return (fill_missing_profile_fields (trim_profile_ref active) d))

  -- `EnsureExists` behind `resolveExistingProfile`.
  unfoldable pub create_missing :
      ProfileRef → Result ProfileError ProfileRef × World → Result ProfileError ProfileRef × World
  unfolding created_ref
  create_missing d (ok resolved, w) = (ok resolved, w)
  create_missing d (err e, w) =
      if not (is_not_found e)
      then (err e, w)
      else run_bind (wrapped create_failed (add_profile d w))
          (λ created. return (created_ref d created))

  unfoldable pub ensure_exists : ProfileRef → M World ProfileRef
  unfolding features
  ensure_exists desired = do
    let d = trim_profile_ref desired
    f ← features
    λ v.
        if f.disable_profiles
        then (ok no_profile, v)
        else if empty d || is_empty d.profile_name || is_empty d.username
        then (ok d, v)
        else create_missing d (resolve_existing_profile d v)

  -- `Resolve` behind `GetActiveProfile`, on trimmed references.
  unfoldable pub resolve_active : ProfileRef → ProfileRef → M World ProfileRef
  resolve_active d active v =
      if empty d
      then (ok active, v)
      else run_bind (check_running_conflict active d v) (λ _ u.
        let prepared = fill_missing_profile_fields active d in
        if matches_desired active prepared
        then (ok prepared, u)
        else run_bind (resolve_existing_profile prepared u)
            (λ resolved. return (fill_missing_profile_fields active resolved)))

  unfoldable pub resolve : ProfileRef → M World ProfileRef
  unfolding features resolve_active
  resolve desired = do
    let d = trim_profile_ref desired
    f ← features
    λ v.
        if f.disable_profiles
        then (ok no_profile, v)
        else run_bind (wrapped active_failed (get_active_profile v))
            (λ active. resolve_active d (trim_profile_ref active))
