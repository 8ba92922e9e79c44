-- ===== src/Daemon/Matching.antt =====
-- Laws of profile references: equality of trimmed references, and `MatchesDesired` as an order.
use network_manager_vpn_plug.Prelude.{true, false, ◌≡◌, ◌↔◌, arith, Text, text_eq_iff, is_empty}
use network_manager_vpn_plug.Go.Strings.{trim_space}
use network_manager_vpn_plug.Daemon.{ProfileRef, field_matches, matches_desired}

-- A wanted field is honoured: it is blank, or the field has its value.
abbrev pub Honours : Text → Text → Type 0
Honours mine wanted = is_empty (trim_space wanted) ≡ false → trim_space mine ≡ trim_space wanted

field_matches_iff : (mine wanted : Text) → (field_matches mine wanted ≡ true) ↔ Honours mine wanted
field_matches_iff mine wanted = (
  λ h blank. ground (arith, text_eq_iff (trim_space mine) (trim_space wanted)),
  λ h. ground (arith, text_eq_iff (trim_space mine) (trim_space wanted)),
)

-- A reference matches a desired one exactly when it honours each of the three desired fields.
pub matches_desired_iff :
    (r desired : ProfileRef)
    → (matches_desired r desired ≡ true) ↔ (
        Honours r.id desired.id
        × Honours r.profile_name desired.profile_name
        × Honours r.username desired.username)
unfolding matches_desired
matches_desired_iff r desired = (
  λ h. ground (
    arith,
    field_matches_iff r.id desired.id,
    field_matches_iff r.profile_name desired.profile_name,
    field_matches_iff r.username desired.username,
  ),
  λ h. ground (
    arith,
    field_matches_iff r.id desired.id,
    field_matches_iff r.profile_name desired.profile_name,
    field_matches_iff r.username desired.username,
  ),
)
