-- ===== src/Go/Trim.antt =====
-- Laws of trimming, which the records of trimmed texts rest on.
use network_manager_vpn_plug.Prelude.{
  ℕ, Bool, false, [], ◌∷◌, ◌≡◌, refl, ap, ◌∙◌, inl, inr, arith, Bool-cases, Text,
}
use network_manager_vpn_plug.Go.Unicode.{is_space}
use network_manager_vpn_plug.Go.Strings.{trim_left_func, trim_right_func, trim_func, trim_space}

module _ (p : ℕ → Bool) where
  trim_left-trim_left : (s : Text) → trim_left_func p (trim_left_func p s) ≡ trim_left_func p s
  unfolding trim_left_func
  trim_left-trim_left [] = refl
  trim_left-trim_left (c ∷ s) = ground (arith, trim_left-trim_left s)

  pub trim_right-trim_right :
      (s : Text) → trim_right_func p (trim_right_func p s) ≡ trim_right_func p s
  unfolding trim_right_func
  trim_right-trim_right [] = refl
  trim_right-trim_right (c ∷ s) = ground (arith, trim_right-trim_right s)

  trim_kept :
      (c : ℕ) (s : Text)
      → p c ≡ false
      → trim_left_func p (trim_right_func p (c ∷ s)) ≡ trim_right_func p (c ∷ s)
  unfolding trim_left_func trim_right_func
  trim_kept c s kept = ground arith

  -- Trimming on the right keeps a text that starts with a kept code point.
  trim_left-trim_right :
      (s : Text)
      → trim_left_func p (trim_right_func p (trim_left_func p s))
        ≡ trim_right_func p (trim_left_func p s)
  unfolding trim_left_func trim_right_func
  trim_left-trim_right [] = refl
  trim_left-trim_right (c ∷ s) = elim (Bool-cases (p c)) [
    | inl cut ↦ rw cut (trim_left-trim_right s)
    | inr kept ↦ rw kept (trim_kept c s kept)
  ]

  pub trim_func-trim_func : (s : Text) → trim_func p (trim_func p s) ≡ trim_func p s
  unfolding trim_func
  trim_func-trim_func s =
      ap (trim_right_func p) (trim_left-trim_right s) ∙ trim_right-trim_right (trim_left_func p s)

pub trim_space-trim_space : (s : Text) → trim_space (trim_space s) ≡ trim_space s
unfolding trim_space
trim_space-trim_space = trim_func-trim_func is_space

pub trim_space-nil : trim_space [] ≡ []
unfolding trim_space
trim_space-nil = refl
