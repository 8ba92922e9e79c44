-- ===== src/Status/Words.antt =====
-- internal/netbird/status/status.go: `normalize`, `containsAny` and `mapStatusString`.
use network_manager_vpn_plug.Prelude.{
  ℕ, Bool, false, ◌&&◌, ◌||◌, List, [], ◌∷◌, map, if◌then◌else◌, Text, codes, is_empty, ◌≡◌, refl,
}
use network_manager_vpn_plug.Go.Unicode.{Tables, is_upper, is_lower, is_digit}
use network_manager_vpn_plug.Go.Strings.{
  trim_space, to_lower, mem_text, contains, contains_text, fields, join,
}

pub data State : Type 0 where
  unknown disconnected connecting connected failed : State

abbrev pub failed_needles : List Text
failed_needles =
    codes "failed"
    ∷ codes "failure"
    ∷ codes "error"
    ∷ codes "fatal"
    ∷ codes "invalid"
    ∷ codes "expired"
    ∷ codes "unauthorized"
    ∷ codes "unauthenticated"
    ∷ codes "authentication failed"
    ∷ codes "login failed"
    ∷ []

abbrev pub disconnected_needles : List Text
disconnected_needles =
    codes "not connected"
    ∷ codes "disconnected"
    ∷ codes "disconnect"
    ∷ codes "stopped"
    ∷ codes "stopping"
    ∷ codes "down"
    ∷ codes "offline"
    ∷ codes "idle"
    ∷ codes "login required"
    ∷ codes "needs login"
    ∷ codes "need login"
    ∷ codes "not logged"
    ∷ codes "logged out"
    ∷ []

abbrev pub connecting_needles : List Text
connecting_needles =
    codes "connecting"
    ∷ codes "reconnecting"
    ∷ codes "starting"
    ∷ codes "initializing"
    ∷ codes "initialising"
    ∷ codes "waiting"
    ∷ codes "authenticating"
    ∷ codes "logging in"
    ∷ codes "login pending"
    ∷ codes "in progress"
    ∷ codes "updating"
    ∷ []

abbrev pub connected_needles : List Text
connected_needles =
    codes "connected" ∷ codes "ready" ∷ codes "running" ∷ codes "up" ∷ codes "active" ∷ []

module _ (tables : Tables) where
  -- `splitCamelCase` behind the first code point, which is `prev`.
  unfoldable pub split_after : ℕ → Text → Text
  unfolding is_upper is_lower is_digit
  split_after prev [] = []
  split_after prev (c ∷ s) =
      if (is_lower tables prev || is_digit tables prev) && is_upper tables c
      then b' ' ∷ c ∷ split_after c s
      else c ∷ split_after c s

  unfoldable pub split_camel_case : Text → Text
  unfolding split_after
  split_camel_case [] = []
  split_camel_case (c ∷ s) = c ∷ split_after c s

  -- What the `strings.NewReplacer` of `normalize` makes of a code point.
  abbrev separator : ℕ → ℕ
  separator c = if mem_text c (codes "_-.:;,") then b' ' else c

  unfoldable pub normalize : Text → Text
  unfolding split_camel_case to_lower mem_text fields join trim_space
  normalize value =
      join (fields (map separator (to_lower tables (split_camel_case (trim_space value)))))
        (codes " ")

  -- One needle: a phrase is looked for in the text, a word among its words.
  abbrev pub has_needle : Text → Text → Bool
  has_needle value needle =
      if contains needle (codes " ")
      then contains value needle
      else contains_text (fields value) needle

  unfoldable pub contains_any : Text → List Text → Bool
  unfolding contains contains_text fields normalize
  contains_any value [] = false
  contains_any value (needle ∷ needles) =
      has_needle value (normalize needle) || contains_any value needles

  -- `mapStatusString` on the normalized text.
  unfoldable pub map_normalized : Text → State
  unfolding contains_any
  map_normalized status =
      if is_empty status
      then unknown
      else if contains_any status failed_needles
      then failed
      else if contains_any status disconnected_needles
      then disconnected
      else if contains_any status connecting_needles
      then connecting
      else if contains_any status connected_needles
      then connected
      else unknown

  unfoldable pub map_status_string : Text → State
  unfolding map_normalized normalize
  map_status_string raw = map_normalized (normalize raw)

abbrev pub ascii_only : Tables
ascii_only = record {
  lower = λ c. c;
  upper_letter = λ c. false;
  lower_letter = λ c. false;
  decimal_digit = λ c. false;
}

needs_login : map_status_string ascii_only (codes "NeedsLogin") ≡ disconnected
unfolding map_status_string
needs_login = refl

login_failed : map_status_string ascii_only (codes " Login_Failed. ") ≡ failed
unfolding map_status_string
login_failed = refl

plain_connected : map_status_string ascii_only (codes "Connected") ≡ connected
unfolding map_status_string
plain_connected = refl
