-- ===== src/Dialog/Keyfile/Lines.antt =====
-- internal/nmauthdialog/dialog.go: how many lines the output takes.
use network_manager_vpn_plug.Prelude.{
  ℕ, suc, ◌↔◌, ◌||◌, if◌then◌else◌, ◌+◌, ◌*◌, Bool, true, false, List, [], ◌∷◌, ◌++◌, ◌==◌, ◌≡◌,
  refl, arith, Text, All, bit, length,
}
use network_manager_vpn_plug.Go.Decimal.{format_bool}
use network_manager_vpn_plug.Dialog.Keyfile.{
  escape_keyfile_value, write_keyfile_entry, StandardSecret, has_line_break, write_standard_secrets,
}
use network_manager_vpn_plug.Dialog.Keyfile.Escape.{IsPlain, escape-IsPlain}

abbrev pub newlines : Text → ℕ
newlines [] = 0
newlines (c ∷ s) = bit (c == b'\n') + newlines s

newlines-append : (s t : Text) → newlines (s ++ t) ≡ newlines s + newlines t
newlines-append [] t = omega arith
newlines-append (c ∷ s) t = omega (arith, newlines-append s t)

newlines_plain : (s : Text) → All IsPlain s → newlines s ≡ 0
newlines_plain [] h = refl
newlines_plain (c ∷ s) (h, hs) = ground (arith, newlines_plain s hs)

newlines-escape : (s : Text) → newlines (escape_keyfile_value s) ≡ 0
newlines-escape s = newlines_plain (escape_keyfile_value s) (escape-IsPlain s)

newlines-format_bool : (b : Bool) → newlines (format_bool b) ≡ 0
unfolding format_bool
newlines-format_bool true = refl
newlines-format_bool false = refl

newlines_allowed : (s : Text) → has_line_break s ≡ false → newlines s ≡ 0
unfolding has_line_break
newlines_allowed [] h = refl
newlines_allowed (c ∷ s) h = ground (arith, newlines_allowed s)

-- Every group of the key file takes five lines beside those in its name, whatever value and label it
-- has: neither can add a line or a group.
pub newlines-write_keyfile_entry :
    (key value label : Text) (is_secret should_ask : Bool)
    → newlines (write_keyfile_entry key value label is_secret should_ask) ≡ newlines key + 5
unfolding write_keyfile_entry
newlines-write_keyfile_entry key value label is_secret should_ask =
    simp (newlines-append, newlines-escape, newlines-format_bool) (omega arith)

-- The secrets before the first that has a line break in its key or its value.
abbrev pub leading : List StandardSecret → ℕ
leading [] = 0
leading (s ∷ rest) =
    let behind = leading rest in
    if has_line_break s.key || has_line_break s.value then 0 else suc behind

-- The plain output takes two lines for each secret before the first that cannot be written, and two
-- empty lines behind them exactly if that is all secrets: no key or value adds a line, and an output
-- that an error cuts short lacks the empty lines.
pub newlines-write_standard_secrets :
    (secrets : List StandardSecret)
    → (newlines (write_standard_secrets secrets).0
        ≡ 2 * leading secrets + 2 * bit (write_standard_secrets secrets).1)
      × (((write_standard_secrets secrets).1 ≡ true) ↔ (leading secrets ≡ length secrets))
unfolding write_standard_secrets
newlines-write_standard_secrets [] = ground arith
newlines-write_standard_secrets (s ∷ rest) =
    let (out, complete) = write_standard_secrets rest in
    ground (
      arith,
      newlines-write_standard_secrets rest,
      newlines_allowed s.key,
      newlines_allowed s.value,
      newlines-append s.key (b'\n' ∷ (s.value ++ (b'\n' ∷ out))),
      newlines-append s.value (b'\n' ∷ out),
    )
