-- ===== src/Go/Decimal.antt =====
-- Go's `strconv.FormatUint(n, 10)` and its signed and Boolean siblings.
use network_manager_vpn_plug.Prelude.{
  ℕ, zero, suc, ◌+◌, ◌-◌, ◌*◌, ◌/◌, ◌%◌, ◌≤◌, Bool, true, false, [], ◌∷◌, ◌≡◌, ◌≢◌, refl, sym, ap,
  ◌∙◌, arith, ◌==◌, if◌then◌else◌, Text, codes, Bool-cases, inl, inr,
}

-- The digits of `n` before `out`; the fuel is at least the number of digits.
unfoldable pub digits : ℕ → ℕ → Text → Text
digits zero n out = out
digits (suc fuel) n out =
    let rest = digits fuel (n / 10) ((b'0' + n % 10) ∷ out) in if n == 0 then out else rest

unfoldable pub format_uint : ℕ → Text
unfolding digits
format_uint n = if n == 0 then b'0' ∷ [] else digits n n []

pub data ℤ : Type 0 where
  pos : ℕ → ℤ
  negsuc : ℕ → ℤ

unfoldable pub format_int : ℤ → Text
unfolding format_uint
format_int (pos n) = format_uint n
format_int (negsuc n) = b'-' ∷ format_uint (suc n)

unfoldable pub format_bool : Bool → Text
format_bool true = codes "true"
format_bool false = codes "false"

-- The number that decimal digits spell behind `acc`.
abbrev value : ℕ → Text → ℕ
value acc [] = acc
value acc (c ∷ s) = value (acc * 10 + (c - b'0')) s

value-digits : (fuel n : ℕ) (out : Text) → n ≤ fuel → value 0 (digits fuel n out) ≡ value n out
unfolding digits
value-digits zero n out h = let e : n ≡ 0 = omega arith in rw e refl
value-digits (suc fuel) n out h = elim (Bool-cases (n == 0)) [
  | inl z ↦ (let e : n ≡ 0 = ground arith in rw (z, e) refl)
  | inr p ↦ rw p (
      value-digits fuel (n / 10) ((b'0' + n % 10) ∷ out) (ground arith)
      ∙ ap (λ m. value m out) (omega arith))
]

value-format_uint : (n : ℕ) → value 0 (format_uint n) ≡ n
unfolding format_uint
value-format_uint n = elim (Bool-cases (n == 0)) [
  | inl z ↦ rw z (ground arith)
  | inr p ↦ rw p (value-digits n n [] (omega arith))
]

-- Two numbers with the same print are the same number.
pub format_uint_injective : (m n : ℕ) → format_uint m ≡ format_uint n → m ≡ n
format_uint_injective m n h = sym (value-format_uint m) ∙ ap (value 0) h ∙ value-format_uint n

digits-ne-nil : (fuel n : ℕ) (c : ℕ) (out : Text) → digits fuel n (c ∷ out) ≢ []
unfolding digits
digits-ne-nil zero n c out = cc
digits-ne-nil (suc fuel) n c out = elim (Bool-cases (n == 0)) [
  | inl z ↦ rw z (cc)
  | inr p ↦ rw p (digits-ne-nil fuel (n / 10) (b'0' + n % 10) (c ∷ out))
]

-- The print of a number is not empty.
pub format_uint-ne-nil : (n : ℕ) → format_uint n ≢ []
unfolding format_uint digits
format_uint-ne-nil zero = cc
format_uint-ne-nil (suc n) = ground (arith, digits-ne-nil n (suc n / 10) (b'0' + suc n % 10) [])
