-- ===== src/Dialog/Protocol.antt =====
-- internal/nmauthdialog/dialog.go: the lines of VPN data and secrets that NetworkManager writes.
pub mod Reading
pub mod Invariant
pub mod RoundTrip
pub mod Input
use network_manager_vpn_plug.Prelude.{
  ℕ, zero, suc, Bool, true, false, not, ◌&&◌, ◌||◌, List, [], ◌∷◌, ◌++◌, Option, none, some, ◌==◌,
  if◌then◌else◌, Text, codes, text_eq, is_empty, Result, ok, err,
}
use network_manager_vpn_plug.Go.Maps.{insert}
use network_manager_vpn_plug.Go.Strings.{cut_prefix}

-- `vpnDetails`.
pub record VpnDetails : Type 0 where
  pub values : List (Text × Text)
  pub secrets : List (Text × Text)

-- The texts that `pendingTarget` and `currentField` take; the first of each is the empty text.
pub data Target : Type 0 where
  no_target data_target secrets_target : Target

pub data Field : Type 0 where
  no_field key_field value_field : Field

pub data ProtocolError : Type 0 where
  missing_done line_too_long line_has_nul too_many_lines : ProtocolError
  no_items continuation_without_field key_before_complete : ProtocolError
  value_without_key incomplete_pair invalid_pending_target unknown_line : ProtocolError

pub record ProtocolParser : Type 0 where
  pub details : VpnDetails
  pub done : Bool
  pub got_item : Bool
  pub pending_target : Target
  pub pending_key : Text
  pub pending_value : Text
  pub has_key : Bool
  pub has_value : Bool
  pub current_field : Field

abbrev pub new_parser : ProtocolParser
new_parser = record {
  details = record { values = []; secrets = [] };
  done = false;
  got_item = false;
  pending_target = no_target;
  pending_key = [];
  pending_value = [];
  has_key = false;
  has_value = false;
  current_field = no_field;
}

abbrev pub Parsed : Type 0
Parsed = Result ProtocolError ProtocolParser

infixl 5 ◌>>=◌
abbrev pub ◌>>=◌ : Parsed → (ProtocolParser → Parsed) → Parsed
ok p >>= f = f p
err e >>= f = err e

-- `p.pendingKey += "\n" + value`.
abbrev pub continued : Text → Text → Text
continued s value = s ++ (b'\n' ∷ value)

abbrev continue_field : Field → Text → ProtocolParser → Parsed
continue_field key_field value p = ok (record p { pending_key = continued p.pending_key value })
continue_field value_field value p =
    ok (record p { pending_value = continued p.pending_value value })
continue_field no_field value p = err continuation_without_field

unfoldable pub continue_previous : Text → ProtocolParser → Parsed
continue_previous value p = continue_field p.current_field value p

unfoldable pub start_key : Target → Text → ProtocolParser → Parsed
start_key target key p =
    if p.has_key || p.has_value
    then err key_before_complete
    else ok (record p {
      pending_target = target;
      pending_key = key;
      has_key = true;
      current_field = key_field;
    })

abbrev pub same_target : Target → Target → Bool
same_target no_target no_target = true
same_target data_target data_target = true
same_target secrets_target secrets_target = true
same_target _ _ = false

unfoldable pub set_value : Target → Text → ProtocolParser → Parsed
set_value target value p =
    if not p.has_key || p.has_value || not (same_target p.pending_target target)
    then err value_without_key
    else ok (record p { pending_value = value; has_value = true; current_field = value_field })

-- The `switch` of `flush`.
abbrev pub store : Target → Text → Text → VpnDetails → Option VpnDetails
store data_target key value d = some (record d { values = insert key value d.values })
store secrets_target key value d = some (record d { secrets = insert key value d.secrets })
store no_target key value d = none

abbrev flushed : Option VpnDetails → ProtocolParser → Parsed
flushed none p = err invalid_pending_target
flushed (some d) p = ok (record p {
  details = d;
  pending_target = no_target;
  pending_key = [];
  pending_value = [];
  has_key = false;
  has_value = false;
  current_field = no_field;
  got_item = true;
})

unfoldable pub flush : ProtocolParser → Parsed
flush p =
    if not p.has_key && not p.has_value
    then ok p
    else if not p.has_key || not p.has_value
    then err incomplete_pair
    else flushed (store p.pending_target p.pending_key p.pending_value p.details) p

abbrev finish : ProtocolParser → Parsed
finish p = if not p.got_item then err no_items else ok (record p { done = true })

-- The tags of a line, tried in this order: the line's kind, and what is behind the tag.
pub data Line : Type 0 where
  key_line value_line : Target → Text → Line
  other_line : Line

abbrev pub data_key_tag : Text
data_key_tag = codes "DATA_KEY="

abbrev pub data_val_tag : Text
data_val_tag = codes "DATA_VAL="

abbrev pub secret_key_tag : Text
secret_key_tag = codes "SECRET_KEY="

abbrev pub secret_val_tag : Text
secret_val_tag = codes "SECRET_VAL="

abbrev pub or_line : Option Text → (Text → Line) → Line → Line
or_line none f other = other
or_line (some rest) f other = f rest

unfoldable pub classify : Text → Line
classify line = or_line (cut_prefix line data_key_tag) (key_line data_target) (
    or_line (cut_prefix line data_val_tag) (value_line data_target) (
      or_line (cut_prefix line secret_key_tag) (key_line secrets_target)
        (or_line (cut_prefix line secret_val_tag) (value_line secrets_target) other_line)))

unfoldable pub consume_tagged : Line → ProtocolParser → Parsed
unfolding start_key set_value
consume_tagged (key_line target key) p = start_key target key p
consume_tagged (value_line target value) p = set_value target value p
consume_tagged other_line p = err unknown_line

-- `consume` behind its tests for a blank line and `DONE`.
unfoldable pub consume_line : Text → ProtocolParser → Parsed
consume_line [] p = ok p
consume_line (c ∷ rest) p =
    if c == b'='
    then continue_previous rest p
    else ((if p.has_key && p.has_value then flush p else ok p)
        >>= consume_tagged (classify (c ∷ rest)))

unfoldable pub consume : Text → ProtocolParser → Parsed
consume line p =
    if is_empty line
    then ok p
    else if text_eq line (codes "DONE")
    then flush p >>= finish
    else consume_line line p
