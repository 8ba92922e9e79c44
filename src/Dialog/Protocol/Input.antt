-- ===== src/Dialog/Protocol/Input.antt =====
-- internal/nmauthdialog/dialog.go: `readVPNDetails` reads back the text that the protocol writes.
use network_manager_vpn_plug.Prelude.{
  ℕ, zero, suc, ◌≤◌, Bool, true, false, ◌&&◌, List, [], ◌∷◌, ◌++◌, ◌≡◌, refl, ap, ◌∙◌, subst, arith,
  Text, codes, text_eq, length, All, ok, err, ltb, ◌==◌, if◌then◌else◌, Bool-cases, inl, inr,
}
use network_manager_vpn_plug.Go.Strings.{mem_text}
use network_manager_vpn_plug.Dialog.Protocol.{
  ProtocolParser, new_parser, Parsed, ◌>>=◌, continue_previous, flush, consume, consume_line,
  consume_tagged, classify, Line,
}
use network_manager_vpn_plug.Dialog.Protocol.Reading.{
  byte_length, max_protocol_line_len, max_protocol_lines, read_lines, read_protocol_line,
  read_vpn_details, split_line, trim_return,
}
use network_manager_vpn_plug.Dialog.Protocol.RoundTrip.{
  Item, all_lines, all_stored, consume_all, consume_all-all_lines, continuations, key_tag,
  value_tag,
}

-- A line that can be read back: it ends where it ends, has no NUL, and is not too long.
pub record IsLine (line : Text) : Type 0 where
  pub no_newline : mem_text b'\n' line ≡ false
  pub no_nul : mem_text 0 line ≡ false
  pub no_return : trim_return line ≡ line
  pub short : byte_length line ≤ max_protocol_line_len

abbrev pub unlines : List Text → Text → Text
unlines [] rest = rest
unlines (line ∷ lines) rest = line ++ (b'\n' ∷ unlines lines rest)

split_line-append :
    (line rest : Text)
    → mem_text b'\n' line ≡ false
    → split_line (line ++ (b'\n' ∷ rest)) ≡ (line, true, rest)
unfolding split_line mem_text
split_line-append [] rest h = refl
split_line-append (c ∷ line) rest h = ground (arith, split_line-append line rest)

read_protocol_line-line :
    (line rest : Text) → IsLine line → read_protocol_line (line ++ (b'\n' ∷ rest)) ≡ ok (line, rest)
unfolding read_protocol_line
read_protocol_line-line [] rest v = refl
read_protocol_line-line (c ∷ line) rest v =
    let split = split_line-append (c ∷ line) rest v.no_newline in
    let short : ltb max_protocol_line_len (byte_length (c ∷ line)) ≡ false = ground arith in
    rw (split, v.no_return, short, v.no_nul, v.no_return)

-- The parser is done where it was, or the line is refused.
abbrev KeepsDone : Bool → Parsed → Type 0
KeepsDone before (err e) = Unit
KeepsDone before (ok q) = q.done ≡ before

flush-KeepsDone : (p : ProtocolParser) → KeepsDone p.done (flush p)
unfolding flush
flush-KeepsDone p = ground arith

tagged-KeepsDone : (line : Line) (p : ProtocolParser) → KeepsDone p.done (consume_tagged line p)
unfolding consume_tagged
tagged-KeepsDone line p = ground arith

continue_previous-KeepsDone :
    (t : Text) (p : ProtocolParser) → KeepsDone p.done (continue_previous t p)
unfolding continue_previous
continue_previous-KeepsDone t p = ground arith

bind-KeepsDone :
    (b : Bool) (m : Parsed) (f : ProtocolParser → Parsed)
    → KeepsDone b m
    → ((q : ProtocolParser) → KeepsDone q.done (f q))
    → KeepsDone b (m >>= f)
bind-KeepsDone b (err e) f v k = v
bind-KeepsDone b (ok q) f v k = subst (λ c. KeepsDone c (f q)) v (k q)

flush_if-KeepsDone :
    (b : Bool) (p : ProtocolParser) → KeepsDone p.done (if b then flush p else ok p)
flush_if-KeepsDone true p = flush-KeepsDone p
flush_if-KeepsDone false p = refl

consume_line-KeepsDone : (line : Text) (p : ProtocolParser) → KeepsDone p.done (consume_line line p)
unfolding consume_line
consume_line-KeepsDone [] p = refl
consume_line-KeepsDone (c ∷ rest) p = elim (Bool-cases (c == b'=')) [
  | inl k ↦ rw k (continue_previous-KeepsDone rest p)
  | inr k ↦ rw k (
      bind-KeepsDone p.done (if p.has_key && p.has_value then flush p else ok p) _
        (flush_if-KeepsDone (p.has_key && p.has_value) p)
        (λ q. tagged-KeepsDone (classify (c ∷ rest)) q))
]

-- A line that is not `DONE` leaves the parser done where it was.
consume-KeepsDone :
    (line : Text) (p : ProtocolParser)
    → text_eq line (codes "DONE") ≡ false
    → KeepsDone p.done (consume line p)
unfolding consume
consume-KeepsDone [] p h = refl
consume-KeepsDone (c ∷ rest) p h = rw h (consume_line-KeepsDone (c ∷ rest) p)

-- Lines of which the last, and no other, is `DONE`.
data Terminated : List Text → Type 0 where
  last : Terminated (codes "DONE" ∷ [])
  next :
      (line : Text) (lines : List Text)
      → text_eq line (codes "DONE") ≡ false
      → Terminated lines
      → Terminated (line ∷ lines)

continuations-Terminated :
    (ts lines : List Text) → Terminated lines → Terminated (continuations ts ++ lines)
unfolding text_eq
continuations-Terminated [] lines t = t
continuations-Terminated (x ∷ ts) lines t =
    next (b'=' ∷ x) (continuations ts ++ lines) refl (continuations-Terminated ts lines t)

key_tag-line : (secret : Bool) (s : Text) → text_eq (key_tag secret ++ s) (codes "DONE") ≡ false
unfolding text_eq
key_tag-line false s = refl
key_tag-line true s = refl

value_tag-line : (secret : Bool) (s : Text) → text_eq (value_tag secret ++ s) (codes "DONE") ≡ false
unfolding text_eq
value_tag-line false s = refl
value_tag-line true s = refl

all_lines-Terminated : (its : List Item) → Terminated (all_lines its (codes "DONE" ∷ []))
all_lines-Terminated [] = last
all_lines-Terminated (it ∷ its) =
    next (key_tag it.secret ++ it.key) _ (key_tag-line it.secret it.key) (
      continuations-Terminated it.key_rest _ (
        next (value_tag it.secret ++ it.value) _ (value_tag-line it.secret it.value)
          (continuations-Terminated it.value_rest _ (all_lines-Terminated its))))

-- A line is read, and the parser goes on with what it makes of it.
read_lines-next :
    (n : ℕ) (line input : Text) (p q : ProtocolParser)
    → IsLine line
    → consume line p ≡ ok q
    → read_lines (suc n) (line ++ (b'\n' ∷ input)) p
      ≡ (if q.done then ok q.details else read_lines n input q)
unfolding read_lines
read_lines-next n line input p q v c = rw (read_protocol_line-line line input v, c, read_lines)

ok_bind :
    (m : Parsed) (f : ProtocolParser → Parsed) (q : ProtocolParser)
    → (m >>= f) ≡ ok q
    → (r : ProtocolParser) × (m ≡ ok r) × (f r ≡ ok q)
ok_bind (ok r) f q e = (r, refl, e)
ok_bind (err x) f q e = absurd (cc)

read_lines-last :
    (n : ℕ) (line input : Text) (p q : ProtocolParser)
    → IsLine line
    → consume line p ≡ ok q
    → q.done ≡ true
    → read_lines (suc n) (line ++ (b'\n' ∷ input)) p ≡ ok q.details
read_lines-last n line input p q v c d = read_lines-next n line input p q v c ∙ rw d refl

read_lines-skip :
    (n : ℕ) (line input : Text) (p q : ProtocolParser)
    → IsLine line
    → text_eq line (codes "DONE") ≡ false
    → p.done ≡ false
    → consume line p ≡ ok q
    → (q.done ≡ false) × (read_lines (suc n) (line ++ (b'\n' ∷ input)) p ≡ read_lines n input q)
read_lines-skip n line input p q v e h c =
    let kept : KeepsDone p.done (ok q) =
      subst (λ r. KeepsDone p.done r) c (consume-KeepsDone line p e) in
    let open_still : q.done ≡ false = kept ∙ h in
    (open_still, read_lines-next n line input p q v c ∙ rw open_still refl)

read_lines-Terminated :
    (n : ℕ) (lines : List Text) (rest : Text) (p q : ProtocolParser)
    → Terminated lines
    → All IsLine lines
    → length lines ≤ n
    → p.done ≡ false
    → consume_all lines p ≡ ok q
    → q.done ≡ true
    → read_lines n (unlines lines rest) p ≡ ok q.details
unfolding consume_all
read_lines-Terminated zero _ rest p q last a l h c d = absurd (omega (arith, l))
read_lines-Terminated zero _ rest p q (next _ _ _ _) a l h c d = absurd (omega (arith, l))
read_lines-Terminated (suc n) _ rest p q last (v, a) l h c d =
    let (r, e, f) = ok_bind (consume (codes "DONE") p) (λ s. ok s) q c in
    read_lines-last n (codes "DONE") rest p q v (e ∙ f) d
read_lines-Terminated (suc n) _ rest p q (next line lines e t) (v, a) l h c d =
    let (r, f, g) = ok_bind (consume line p) (consume_all lines) q c in
    let (still, step) = read_lines-skip n line (unlines lines rest) p r v e h f in
    step ∙ read_lines-Terminated n lines rest r q t a (omega (arith, l)) still g d

-- Every list of pairs with at least one entry is read back from the text that writes it on stdin,
-- whatever follows it, where every line can be read and there are at most 4096 of them.
pub read_vpn_details-unlines :
    (it : Item) (its : List Item) (rest : Text)
    → All IsLine (all_lines (it ∷ its) (codes "DONE" ∷ []))
    → length (all_lines (it ∷ its) (codes "DONE" ∷ [])) ≤ max_protocol_lines
    → read_vpn_details (unlines (all_lines (it ∷ its) (codes "DONE" ∷ [])) rest)
      ≡ ok (all_stored (it ∷ its) new_parser.details)
unfolding read_vpn_details
read_vpn_details-unlines it its rest a l =
    let (p, c, d, e) = consume_all-all_lines it its in
    read_lines-Terminated max_protocol_lines (all_lines (it ∷ its) (codes "DONE" ∷ [])) rest
      new_parser p (all_lines-Terminated (it ∷ its)) a l refl c d
    ∙ ap ok e
