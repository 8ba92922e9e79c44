-- ===== src/Dialog/Protocol/RoundTrip.antt =====
-- internal/nmauthdialog/dialog.go: the parser reads back what the protocol writes.
use network_manager_vpn_plug.Prelude.{
  Bool, true, false, List, [], ◌∷◌, ◌++◌, ◌≡◌, refl, ◌∙◌, arith, Text, codes, text_eq, ok,
}
use network_manager_vpn_plug.Go.Maps.{insert}
use network_manager_vpn_plug.Go.Strings.{cut_prefix}
use network_manager_vpn_plug.Dialog.Protocol.{
  VpnDetails, Target, no_target, data_target, secrets_target, no_field, key_field, value_field,
  ProtocolParser, new_parser, Parsed, ◌>>=◌, continued, continue_previous, flush, data_key_tag,
  data_val_tag, secret_key_tag, secret_val_tag, classify, consume_tagged, consume_line, consume,
}

-- A pair of the map of data, or of the secrets if `secret`. A key or a value is the pieces between
-- its newlines: the first, and the others.
pub record Item : Type 0 where
  pub secret : Bool
  pub key : Text
  pub key_rest : List Text
  pub value : Text
  pub value_rest : List Text

-- The text whose pieces these are.
abbrev pub whole : Text → List Text → Text
whole s [] = s
whole s (t ∷ ts) = whole (continued s t) ts

abbrev pub key_tag : Bool → Text
key_tag false = data_key_tag
key_tag true = secret_key_tag

abbrev pub value_tag : Bool → Text
value_tag false = data_val_tag
value_tag true = secret_val_tag

abbrev pub continuations : List Text → List Text
continuations [] = []
continuations (t ∷ ts) = (b'=' ∷ t) ∷ continuations ts

-- The lines of an item, and those of several, before the lines `rest`.
abbrev pub item_lines : Item → List Text → List Text
item_lines it rest =
    (key_tag it.secret ++ it.key)
    ∷ (continuations it.key_rest
        ++ ((value_tag it.secret ++ it.value) ∷ (continuations it.value_rest ++ rest)))

abbrev pub all_lines : List Item → List Text → List Text
all_lines [] rest = rest
all_lines (it ∷ its) rest = item_lines it (all_lines its rest)

-- `consume` on one line after the other.
unfoldable pub consume_all : List Text → ProtocolParser → Parsed
consume_all [] p = ok p
consume_all (line ∷ lines) p = consume line p >>= consume_all lines

abbrev pub stored : Item → VpnDetails → VpnDetails
stored it d = elim it.secret [
  | false ↦ record d {
    values = insert (whole it.key it.key_rest) (whole it.value it.value_rest) d.values;
  }
  | true ↦ record d {
    secrets = insert (whole it.key it.key_rest) (whole it.value it.value_rest) d.secrets;
  }
]

abbrev pub all_stored : List Item → VpnDetails → VpnDetails
all_stored [] d = d
all_stored (it ∷ its) d = all_stored its (stored it d)

abbrev target_of : Bool → Target
target_of false = data_target
target_of true = secrets_target

-- The parser between two pairs, with a key, and with a pair that it has not stored yet.
abbrev clean : VpnDetails → Bool → ProtocolParser
clean d got = record {
  details = d;
  done = false;
  got_item = got;
  pending_target = no_target;
  pending_key = [];
  pending_value = [];
  has_key = false;
  has_value = false;
  current_field = no_field;
}

abbrev with_key : VpnDetails → Bool → Bool → Text → ProtocolParser
with_key d got secret key = record (clean d got) {
  pending_target = target_of secret;
  pending_key = key;
  has_key = true;
  current_field = key_field;
}

abbrev with_pair : VpnDetails → Bool → Bool → Text → Text → ProtocolParser
with_pair d got secret key value = record (with_key d got secret key) {
  pending_value = value;
  has_value = true;
  current_field = value_field;
}

module _ (d : VpnDetails) (got secret : Bool) (rest : List Text) where
  key_continuations :
      (ts : List Text) (key : Text)
      → consume_all (continuations ts ++ rest) (with_key d got secret key)
        ≡ consume_all rest (with_key d got secret (whole key ts))
  unfolding consume_all consume consume_line continue_previous text_eq
  key_continuations [] key = refl
  key_continuations (t ∷ ts) key = key_continuations ts (continued key t)

  value_continuations :
      (ts : List Text) (key value : Text)
      → consume_all (continuations ts ++ rest) (with_pair d got secret key value)
        ≡ consume_all rest (with_pair d got secret key (whole value ts))
  unfolding consume_all consume consume_line continue_previous text_eq
  value_continuations [] key value = refl
  value_continuations (t ∷ ts) key value = value_continuations ts key (continued value t)

key_line_clean :
    (d : VpnDetails) (got secret : Bool) (key : Text)
    → consume (key_tag secret ++ key) (clean d got) ≡ ok (with_key d got secret key)
unfolding consume consume_line text_eq consume_tagged classify cut_prefix
key_line_clean d got false key = refl
key_line_clean d got true key = refl

value_line_key :
    (d : VpnDetails) (got secret : Bool) (key value : Text)
    → consume (value_tag secret ++ value) (with_key d got secret key)
      ≡ ok (with_pair d got secret key value)
unfolding consume consume_line text_eq consume_tagged classify cut_prefix
value_line_key d got false key value = refl
value_line_key d got true key value = refl

abbrev pending : Item → VpnDetails → Bool → ProtocolParser
pending it d got =
    with_pair d got it.secret (whole it.key it.key_rest) (whole it.value it.value_rest)

item_clean :
    (it : Item) (rest : List Text) (d : VpnDetails) (got : Bool)
    → consume_all (item_lines it rest) (clean d got) ≡ consume_all rest (pending it d got)
unfolding consume_all
item_clean it rest d got = rw (key_line_clean d got it.secret it.key) (
    key_continuations d got it.secret
      ((value_tag it.secret ++ it.value) ∷ (continuations it.value_rest ++ rest)) it.key_rest it.key
    ∙ rw (value_line_key d got it.secret (whole it.key it.key_rest) it.value) (
        value_continuations d got it.secret rest it.value_rest (whole it.key it.key_rest) it.value))

-- The next key stores the pair before it.
key_line_pending :
    (it : Item) (d : VpnDetails) (got secret : Bool) (key : Text)
    → consume (key_tag secret ++ key) (pending it d got)
      ≡ consume (key_tag secret ++ key) (clean (stored it d) true)
unfolding consume consume_line text_eq consume_tagged classify cut_prefix flush
key_line_pending it d got false key = ground arith
key_line_pending it d got true key = ground arith

done_pending :
    (it : Item) (d : VpnDetails) (got : Bool)
    → consume (codes "DONE") (pending it d got)
      ≡ ok (record (clean (stored it d) true) { done = true })
unfolding consume text_eq flush
done_pending it d got = ground arith

key_first :
    (it next : Item) (d : VpnDetails) (got : Bool) (rest : List Text)
    → consume_all ((key_tag next.secret ++ next.key) ∷ rest) (pending it d got)
      ≡ consume_all ((key_tag next.secret ++ next.key) ∷ rest) (clean (stored it d) true)
unfolding consume_all
key_first it next d got rest = rw (key_line_pending it d got next.secret next.key)

lines_pending :
    (its : List Item) (it : Item) (d : VpnDetails) (got : Bool)
    → consume_all (all_lines its (codes "DONE" ∷ [])) (pending it d got)
      ≡ ok (record (clean (all_stored its (stored it d)) true) { done = true })
lines_pending [] it d got = unfold consume_all in rw (done_pending it d got)
lines_pending (next ∷ its) it d got =
    key_first it next d got (
      continuations next.key_rest
      ++ ((value_tag next.secret ++ next.value)
          ∷ (continuations next.value_rest ++ all_lines its (codes "DONE" ∷ []))))
    ∙ item_clean next (all_lines its (codes "DONE" ∷ [])) (stored it d) true
    ∙ lines_pending its next (stored it d) true

-- Every list of pairs, at least one, is read back from its lines: the lines are accepted, the parser
-- is done, and the maps hold each pair, a later one in place of an earlier one with its key.
pub consume_all-all_lines :
    (it : Item) (its : List Item)
    → (p : ProtocolParser) × (consume_all (all_lines (it ∷ its) (codes "DONE" ∷ [])) new_parser
        ≡ ok p)
      × (p.done ≡ true)
      × (p.details ≡ all_stored (it ∷ its) new_parser.details)
consume_all-all_lines it its = (
  record (clean (all_stored its (stored it new_parser.details)) true) { done = true },
  item_clean it (all_lines its (codes "DONE" ∷ [])) new_parser.details false
      ∙ lines_pending its it new_parser.details false,
  refl,
  refl,
)
