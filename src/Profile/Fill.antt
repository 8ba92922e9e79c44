-- ===== src/Profile/Fill.antt =====
-- internal/netbird/profile/profile.go: what filling in missing fields makes of a reference.
use network_manager_vpn_plug.Prelude.{
  true, not, ◌||◌, [], ◌∷◌, ◌≡◌, ◌↔◌, refl, arith, Text, if◌then◌else◌, inl, inr, Bool-cases,
}
use network_manager_vpn_plug.Go.Strings.{trim_space}
use network_manager_vpn_plug.Go.Trim.{trim_space-trim_space}
use network_manager_vpn_plug.Daemon.{ProfileRef, empty, matches_desired}
use network_manager_vpn_plug.Daemon.Matching.{Honours, matches_desired_iff}
use network_manager_vpn_plug.Profile.Defs.{trim_profile_ref, fill, fill_missing_profile_fields}

pub trim_profile_ref_idem :
    (r : ProfileRef) → trim_profile_ref (trim_profile_ref r) ≡ trim_profile_ref r
unfolding trim_profile_ref
trim_profile_ref_idem r = ground (
  arith,
  trim_space-trim_space r.id,
  trim_space-trim_space r.profile_name,
  trim_space-trim_space r.username,
)

fill-Honours :
    (mine wanted : Text)
    → Honours mine wanted
    → fill (trim_space wanted) (trim_space mine) ≡ trim_space mine
fill-Honours mine wanted h = go (trim_space wanted) refl
  where
    go : (t : Text) → trim_space wanted ≡ t → fill t (trim_space mine) ≡ trim_space mine
    go [] e = refl
    go (c ∷ s) e = ground (arith, h)

-- The parts of a match are those of the trimmed references.
pub Honours-trim :
    (mine wanted : Text) → Honours (trim_space mine) (trim_space wanted) ↔ Honours mine wanted
Honours-trim mine wanted = (
  λ h. ground (arith, h, trim_space-trim_space mine, trim_space-trim_space wanted),
  λ h. ground (arith, h, trim_space-trim_space mine, trim_space-trim_space wanted),
)

filled : (a d : ProfileRef) → ProfileRef
filled a d = record {
  id = fill (trim_space d.id) (trim_space a.id);
  profile_name = fill (trim_space d.profile_name) (trim_space a.profile_name);
  username = fill (trim_space d.username) (trim_space a.username);
}

filled_of_match : (a d : ProfileRef) → matches_desired a d ≡ true → filled a d ≡ trim_profile_ref a
unfolding filled trim_profile_ref
filled_of_match a d h =
    let (hid, hname, huser) = (matches_desired_iff a d).0 h in
    ground (
      arith,
      fill-Honours a.id d.id hid,
      fill-Honours a.profile_name d.profile_name hname,
      fill-Honours a.username d.username huser,
    )

pub matches_desired-trim :
    (a d : ProfileRef)
    → matches_desired (trim_profile_ref a) (trim_profile_ref d) ≡ matches_desired a d
unfolding matches_desired trim_profile_ref
matches_desired-trim a d = ground (
  arith,
  trim_space-trim_space a.id,
  trim_space-trim_space a.profile_name,
  trim_space-trim_space a.username,
  trim_space-trim_space d.id,
  trim_space-trim_space d.profile_name,
  trim_space-trim_space d.username,
)

pub empty-trim : (a : ProfileRef) → empty (trim_profile_ref a) ≡ empty a
unfolding empty trim_profile_ref
empty-trim a = ground (
  arith,
  trim_space-trim_space a.id,
  trim_space-trim_space a.profile_name,
  trim_space-trim_space a.username,
)

-- Filling in the fields of a desired reference gives the active reference, trimmed, if there is one
-- and it matches, and the desired reference, trimmed, otherwise: two references are never mixed.
pub fill_missing_eq :
    (a d : ProfileRef)
    → fill_missing_profile_fields a d
      ≡ (if empty a || not (matches_desired a d) then trim_profile_ref d else trim_profile_ref a)
unfolding fill_missing_profile_fields
fill_missing_eq a d = elim (Bool-cases (empty a || not (matches_desired a d))) [
  | inl e ↦ rw (empty-trim a, matches_desired-trim a d, e) refl
  | inr e ↦
      rw (empty-trim a, matches_desired-trim a d, e)
        (unfold filled in filled_of_match a d (ground arith))
]
