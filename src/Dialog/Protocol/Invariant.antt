-- ===== src/Dialog/Protocol/Invariant.antt =====
-- internal/nmauthdialog/dialog.go: what holds of the parser between two lines.
use network_manager_vpn_plug.Prelude.{
  Bool, true, false, ◌&&◌, [], ◌∷◌, Option, none, some, ◌≡◌, ◌≢◌, refl, arith, Text, ok, err,
  if◌then◌else◌, Bool-cases, ◌==◌, inl, inr, codes, text_eq,
}
use network_manager_vpn_plug.Go.Strings.{cut_prefix}
use network_manager_vpn_plug.Dialog.Protocol.{
  Target, no_target, data_target, secrets_target, Field, no_field, key_field, value_field,
  invalid_pending_target, ProtocolParser, Parsed, ◌>>=◌, continue_previous, flush, finish, Line,
  key_line, value_line, other_line, classify, or_line, data_key_tag, data_val_tag, secret_key_tag,
  secret_val_tag, consume_tagged, consume_line, consume,
}

abbrev field_of : Bool → Bool → Field
field_of false has_value = no_field
field_of true false = key_field
field_of true true = value_field

abbrev pub is_target : Target → Bool
is_target no_target = false
is_target _ = true

-- A value comes with its key, a key with its target, and continuations go to the latest of the two.
pub record IsValid (p : ProtocolParser) : Type 0 where
  pub value_has_key : p.has_value ≡ true → p.has_key ≡ true
  pub key_has_target : is_target p.pending_target ≡ p.has_key
  pub latest : p.current_field ≡ field_of p.has_key p.has_value

-- A parser in order, or an error that is not about the parser's own state.
abbrev pub InOrder : Parsed → Type 0
InOrder (ok p) = IsValid p
InOrder (err e) = e ≢ invalid_pending_target

flush-InOrder : (p : ProtocolParser) → IsValid p → InOrder (flush p)
unfolding flush
flush-InOrder p v = ground arith

abbrev names_target : Line → Bool
names_target (key_line t _) = is_target t
names_target (value_line t _) = is_target t
names_target other_line = true

or_line_names :
    (o : Option Text) (f : Text → Line) (other : Line)
    → ((t : Text) → names_target (f t) ≡ true)
    → names_target other ≡ true
    → names_target (or_line o f other) ≡ true
or_line_names none f other hf ho = ho
or_line_names (some t) f other hf ho = hf t

classify-names_target : (line : Text) → names_target (classify line) ≡ true
unfolding classify
classify-names_target line =
    or_line_names (cut_prefix line data_key_tag) (key_line data_target) _ (λ t. refl)
      (or_line_names (cut_prefix line data_val_tag) (value_line data_target) _ (λ t. refl)
        (or_line_names (cut_prefix line secret_key_tag) (key_line secrets_target) _ (λ t. refl)
          (or_line_names (cut_prefix line secret_val_tag) (value_line secrets_target) other_line
            (λ t. refl) refl)))

consume_tagged-InOrder :
    (l : Line) (p : ProtocolParser)
    → names_target l ≡ true
    → IsValid p
    → InOrder (consume_tagged l p)
unfolding consume_tagged
consume_tagged-InOrder (key_line no_target t) p n v = absurd (cc)
consume_tagged-InOrder (value_line no_target t) p n v = absurd (cc)
consume_tagged-InOrder _ p n v = ground arith

bind-InOrder :
    (m : Parsed) (f : ProtocolParser → Parsed)
    → InOrder m
    → ((p : ProtocolParser) → IsValid p → InOrder (f p))
    → InOrder (m >>= f)
bind-InOrder (ok p) f v k = k p v
bind-InOrder (err e) f v k = v

flush_if-InOrder :
    (b : Bool) (p : ProtocolParser) → IsValid p → InOrder (if b then flush p else ok p)
flush_if-InOrder true p v = flush-InOrder p v
flush_if-InOrder false p v = v

tagged_line-InOrder :
    (line : Text) (p : ProtocolParser)
    → IsValid p
    → InOrder
        ((if p.has_key && p.has_value then flush p else ok p) >>= consume_tagged (classify line))
tagged_line-InOrder line p v =
    bind-InOrder _ _ (flush_if-InOrder (p.has_key && p.has_value) p v)
      (λ q u. consume_tagged-InOrder (classify line) q (classify-names_target line) u)

continue_previous-InOrder :
    (t : Text) (p : ProtocolParser) → IsValid p → InOrder (continue_previous t p)
unfolding continue_previous
continue_previous-InOrder t p v = ground arith

finish-InOrder : (p : ProtocolParser) → IsValid p → InOrder (finish p)
finish-InOrder p v = ground arith

-- Every line keeps the parser in order: after any line that it accepts a value has its key and a key
-- its target, and no line is refused because the target of the pair at hand is invalid.
pub consume-InOrder : (line : Text) (p : ProtocolParser) → IsValid p → InOrder (consume line p)
unfolding consume consume_line
consume-InOrder [] p v = v
consume-InOrder (c ∷ rest) p v = elim (Bool-cases (text_eq (c ∷ rest) (codes "DONE"))) [
  | inl e ↦ rw e (bind-InOrder (flush p) finish (flush-InOrder p v) finish-InOrder)
  | inr e ↦ rw e (elim (Bool-cases (c == b'=')) [
    | inl k ↦ rw k (continue_previous-InOrder rest p v)
    | inr k ↦ rw k (tagged_line-InOrder (c ∷ rest) p v)
  ])
]
