-- ===== src/Daemon.antt =====
-- internal/netbird/daemonclient/types.go: the data that the plugin exchanges with the daemon, and
-- profile references.
pub mod Messages
pub mod Matching
use network_manager_vpn_plug.Prelude.{
  ℕ, Bool, true, false, not, ◌&&◌, ◌||◌, [], ◌∷◌, ◌++◌, if◌then◌else◌, Text, codes, text_eq,
  is_empty,
}
use network_manager_vpn_plug.Go.Strings.{trim_space}

pub record ProfileRef : Type 0 where
  pub id : Text
  pub profile_name : Text
  pub username : Text

-- `ProfileRef{}`.
abbrev pub no_profile : ProfileRef
no_profile = record { id = []; profile_name = []; username = [] }

unfoldable pub empty : ProfileRef → Bool
empty r =
    is_empty (trim_space r.id)
    && is_empty (trim_space r.profile_name)
    && is_empty (trim_space r.username)

abbrev or_else : Text → Text → Text
or_else [] t = t
or_else (c ∷ s) t = c ∷ s

unfoldable pub handle : ProfileRef → Text
handle r = or_else (trim_space r.id) (trim_space r.profile_name)

abbrev pub default_profile_name : Text
default_profile_name = codes "default"

unfoldable pub config_handle : ProfileRef → Text
config_handle r = or_else (handle r) default_profile_name

unfoldable pub equal : ProfileRef → ProfileRef → Bool
equal r other =
    text_eq (trim_space r.id) (trim_space other.id)
    && text_eq (trim_space r.profile_name) (trim_space other.profile_name)
    && text_eq (trim_space r.username) (trim_space other.username)

-- One test of `MatchesDesired`: the desired field is blank, or the two agree.
abbrev pub field_matches : Text → Text → Bool
field_matches mine wanted =
    not (not (is_empty (trim_space wanted)) && not (text_eq (trim_space mine) (trim_space wanted)))

unfoldable pub matches_desired : ProfileRef → ProfileRef → Bool
matches_desired r desired =
    if not (field_matches r.id desired.id)
    then false
    else if not (field_matches r.profile_name desired.profile_name)
    then false
    else field_matches r.username desired.username

-- `String`, on the display name and the user name that it has picked.
abbrev display : Text → Text → Text
display [] [] = codes "default"
display (c ∷ name) [] = c ∷ name
display [] (d ∷ user) = codes "user " ++ d ∷ user
display (c ∷ name) (d ∷ user) = (d ∷ user) ++ (codes "/" ++ (c ∷ name))

unfoldable pub to_string : ProfileRef → Text
to_string r =
    display (or_else (trim_space r.profile_name) (trim_space r.id)) (trim_space r.username)
