-- ===== src/Dialog/Keyfile/Escape.antt =====
-- internal/nmauthdialog/dialog.go, `escapeKeyfileValue`, against a reader of the lines of a key file.
use network_manager_vpn_plug.Prelude.{
  ℕ, Bool, true, false, ◌&&◌, [], ◌∷◌, ◌++◌, Option, none, some, ◌==◌, if◌then◌else◌, ◌≡◌, ◌≢◌,
  refl, arith, Text, All, All-append, ap, ◌∙◌, ◌||◌,
}
use network_manager_vpn_plug.Dialog.Keyfile.{escape_rune, escape_from, escape_keyfile_value}

-- What a reader of key files makes of the code point behind a backslash.
abbrev unescaped : ℕ → Option ℕ
unescaped c =
    if c == b's'
    then some b' '
    else if c == b'n'
    then some b'\n'
    else if c == b't'
    then some b'\t'
    else if c == b'r'
    then some b'\r'
    else if c == b'\\'
    then some b'\\'
    else none

abbrev cons_both : Option ℕ → Option Text → Option Text
cons_both (some c) (some s) = some (c ∷ s)
cons_both _ _ = none

-- The escapes undone; the flag says that a backslash stands before the text.
pub unescape_from : Bool → Text → Option Text
unescape_from true [] = none
unescape_from false [] = some []
unescape_from true (c ∷ s) = cons_both (unescaped c) (unescape_from false s)
unescape_from false (c ∷ s) =
    let rest = unescape_from false s in
    let behind = unescape_from true s in if c == b'\\' then behind else cons_both (some c) rest

escape_rune-read :
    (leading : Bool) (c : ℕ) (rest : Text)
    → unescape_from false (escape_rune leading c ++ rest)
      ≡ cons_both (some c) (unescape_from false rest)
unfolding unescape_from
escape_rune-read leading c rest = ground arith

escape_from-read :
    (leading : Bool) (s : Text) → unescape_from false (escape_from leading s) ≡ some s
unfolding escape_from
escape_from-read leading [] = unfold unescape_from in refl
escape_from-read leading (c ∷ s) = rw (
  escape_rune-read leading c (escape_from (leading && c == b' ') s),
  escape_from-read (leading && c == b' ') s,
)

-- No line break, carriage return or tab.
abbrev pub IsPlain : ℕ → Type 0
IsPlain c = (c ≢ b'\n') × (c ≢ b'\r') × (c ≢ b'\t')

escape_rune-IsPlain : (leading : Bool) (c : ℕ) → All IsPlain (escape_rune leading c)
escape_rune-IsPlain leading c = ground arith

escape_from-IsPlain : (leading : Bool) (s : Text) → All IsPlain (escape_from leading s)
unfolding escape_from
escape_from-IsPlain leading [] = tt
escape_from-IsPlain leading (c ∷ s) =
    All-append IsPlain (escape_rune leading c) _ (escape_rune-IsPlain leading c)
      (escape_from-IsPlain (leading && c == b' ') s)

-- An escaped value holds no line break, carriage return or tab, so it stays within its line.
pub escape-IsPlain : (value : Text) → All IsPlain (escape_keyfile_value value)
unfolding escape_keyfile_value
escape-IsPlain value = escape_from-IsPlain true value

-- A reader of a key file, at the value of a line. The value ends at a line break or a carriage return,
-- and the blanks before it are skipped.
abbrev rest_of_line : Text → Text
rest_of_line [] = []
rest_of_line (c ∷ s) =
    let rest = rest_of_line s in if c == b'\n' || c == b'\r' then [] else c ∷ rest

abbrev skip_blanks : Text → Text
skip_blanks [] = []
skip_blanks (c ∷ s) = let rest = skip_blanks s in if c == b' ' || c == b'\t' then rest else c ∷ s

abbrev pub read_value : Text → Option Text
read_value text = unescape_from false (skip_blanks (rest_of_line text))

rest_of_line_plain : (s rest : Text) → All IsPlain s → rest_of_line (s ++ (b'\n' ∷ rest)) ≡ s
rest_of_line_plain [] rest h = refl
rest_of_line_plain (c ∷ s) rest (h, hs) = ground (arith, rest_of_line_plain s rest hs)

-- An escaped value does not begin with a blank.
skip_blanks-escape :
    (value : Text) → skip_blanks (escape_keyfile_value value) ≡ escape_keyfile_value value
unfolding escape_keyfile_value escape_from
skip_blanks-escape [] = refl
skip_blanks-escape (c ∷ s) = ground arith

-- A key file reader that ends a value with its line and skips the blanks before it reads every value
-- back from its escaped form, whatever stands behind the line.
pub read_value-escape :
    (value rest : Text) → read_value (escape_keyfile_value value ++ (b'\n' ∷ rest)) ≡ some value
unfolding escape_keyfile_value
read_value-escape value rest =
    ap (λ s. unescape_from false (skip_blanks s))
      (rest_of_line_plain (escape_keyfile_value value) rest (escape-IsPlain value))
    ∙ ap (unescape_from false) (skip_blanks-escape value)
    ∙ escape_from-read true value
