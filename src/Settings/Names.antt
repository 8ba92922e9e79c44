-- ===== src/Settings/Names.antt =====
-- internal/nmplugin/settings.go: the normal forms of profile names and keys are safe and stable.
use network_manager_vpn_plug.Prelude.{
  ℕ, Bool, true, false, not, ◌&&◌, [], ◌∷◌, ◌++◌, ◌≡◌, refl, sym, ◌∙◌, ap, arith, Text, codes,
  is_empty, filter, All, All-append, Bool-cases, inl, inr,
}
use network_manager_vpn_plug.Go.Strings.{
  mem_text, to_lower, trim, trim_cons, trim_func, trim_left_func, trim_right_func, trim_space,
}
use network_manager_vpn_plug.Go.Trim.{trim_func-trim_func}
use network_manager_vpn_plug.Go.Unicode.{Tables, is_space, lower_rune}
use network_manager_vpn_plug.Settings.Normal.{
  is_key_rune, is_name_rune, normalize_setting_key, sanitize_from, sanitize_profile_name_component,
}

-- A letter, a digit, a dash, an underscore or a dot.
abbrev pub IsNameRune : ℕ → Type 0
IsNameRune c = is_name_rune c ≡ true

abbrev pub IsKeyRune : ℕ → Type 0
IsKeyRune c = is_key_rune c ≡ true

append-nil : (s : Text) → s ++ [] ≡ s
append-nil [] = refl
append-nil (c ∷ s) = ap (λ t. c ∷ t) (append-nil s)

append-append : (s t u : Text) → (s ++ t) ++ u ≡ s ++ (t ++ u)
append-append [] t u = refl
append-append (c ∷ s) t u = ap (λ v. c ∷ v) (append-append s t u)

module _ {ℓ} (P : ℕ → Type ℓ) (p : ℕ → Bool) where
  trim_left-All : (s : Text) → All P s → All P (trim_left_func p s)
  unfolding trim_left_func
  trim_left-All [] h = h
  trim_left-All (c ∷ s) (hc, hs) = elim (Bool-cases (p c)) [
    | inl e ↦ rw e (trim_left-All s hs)
    | inr e ↦ rw e (hc, hs)
  ]

  trim_cons-All : (c : ℕ) (s : Text) → P c → All P s → All P (trim_cons p c s)
  trim_cons-All c [] hc hs = elim (Bool-cases (p c)) [ inl e ↦ rw e tt | inr e ↦ rw e (hc, tt) ]
  trim_cons-All c (d ∷ s) hc hs = (hc, hs)

  trim_right-All : (s : Text) → All P s → All P (trim_right_func p s)
  unfolding trim_right_func
  trim_right-All [] h = h
  trim_right-All (c ∷ s) (hc, hs) = trim_cons-All c (trim_right_func p s) hc (trim_right-All s hs)

  trim_func-All : (s : Text) → All P s → All P (trim_func p s)
  unfolding trim_func
  trim_func-All s h = trim_right-All (trim_left_func p s) (trim_left-All s h)

  module _ (kept : (c : ℕ) → P c → p c ≡ false) where
    trim_left_kept : (s : Text) → All P s → trim_left_func p s ≡ s
    unfolding trim_left_func
    trim_left_kept [] h = refl
    trim_left_kept (c ∷ s) (hc, hs) = rw (kept c hc) refl

    trim_right_kept : (s : Text) → All P s → trim_right_func p s ≡ s
    unfolding trim_right_func
    trim_right_kept [] h = refl
    trim_right_kept (c ∷ []) (hc, hs) = rw (kept c hc) refl
    trim_right_kept (c ∷ d ∷ s) (hc, hs) = rw (trim_right_kept (d ∷ s) hs) refl

    -- Nothing is trimmed off a text without such code points.
    trim_func_kept : (s : Text) → All P s → trim_func p s ≡ s
    unfolding trim_func
    trim_func_kept s h = rw (trim_left_kept s h) (trim_right_kept s h)

separated-All :
    (x : Bool) (s b : Text) (last : Bool)
    → All IsNameRune (sanitize_from (b ++ b'-' ∷ []) true s)
    → All IsNameRune (sanitize_from b last s)
    → All IsNameRune
        (elim x [ true ↦ sanitize_from (b ++ b'-' ∷ []) true s | false ↦ sanitize_from b last s ])
separated-All true s b last h k = h
separated-All false s b last h k = k

sanitize_from-All :
    (s b : Text) (last : Bool) → All IsNameRune b → All IsNameRune (sanitize_from b last s)
unfolding sanitize_from
sanitize_from-All [] b last h = h
sanitize_from-All (c ∷ s) b last h = elim (Bool-cases (is_name_rune c)) [
  | inl e ↦
      rw (e, sanitize_from)
        (sanitize_from-All s (b ++ c ∷ []) false (All-append IsNameRune b (c ∷ []) h (e, tt)))
  | inr e ↦
      rw (e, sanitize_from)
        (separated-All (not (is_empty b) && not last) s b last
          (sanitize_from-All s (b ++ b'-' ∷ []) true
            (All-append IsNameRune b (b'-' ∷ []) h (unfold is_name_rune in refl, tt)))
          (sanitize_from-All s b last h))
]

sanitize_from_kept : (s b : Text) (last : Bool) → All IsNameRune s → sanitize_from b last s ≡ b ++ s
unfolding sanitize_from
sanitize_from_kept [] b last h = sym (append-nil b)
sanitize_from_kept (c ∷ s) b last (hc, hs) =
    rw (hc, sanitize_from)
      (sanitize_from_kept s (b ++ c ∷ []) false hs ∙ append-append b (c ∷ []) s)

name_rune_is_no_space : (c : ℕ) → IsNameRune c → is_space c ≡ false
unfolding is_name_rune is_space
name_rune_is_no_space c h = ground arith

-- The name of a profile that is made of a connection's UUID or ID holds letters, digits, dashes,
-- underscores and dots only, and making a name of it again does not change it.
pub sanitize_lem :
    (value : Text)
    → All IsNameRune (sanitize_profile_name_component value)
      × (sanitize_profile_name_component (sanitize_profile_name_component value)
          ≡ sanitize_profile_name_component value)
unfolding sanitize_profile_name_component trim trim_space
sanitize_lem value =
    let separator : ℕ → Bool = λ c. mem_text c (codes "-_.") in
    let s = sanitize_from [] false (trim_space value) in
    let r = trim_func separator s in
    let safe : All IsNameRune r =
      trim_func-All IsNameRune separator s (sanitize_from-All (trim_space value) [] false tt) in
    (
      safe,
      ap (λ t. trim_func separator (sanitize_from [] false t))
            (trim_func_kept IsNameRune is_space name_rune_is_no_space r safe)
          ∙ ap (trim_func separator) (sanitize_from_kept r [] false safe)
          ∙ trim_func-trim_func separator s,
    )

lower_key_rune : (tables : Tables) (c : ℕ) → IsKeyRune c → lower_rune tables c ≡ c
unfolding is_key_rune lower_rune
lower_key_rune tables c h = ground arith

key_rune_is_no_space : (c : ℕ) → IsKeyRune c → is_space c ≡ false
unfolding is_key_rune is_space
key_rune_is_no_space c h = ground arith

filter-All : (s : Text) → All IsKeyRune (filter is_key_rune s)
unfolding filter
filter-All [] = tt
filter-All (c ∷ s) = elim (Bool-cases (is_key_rune c)) [
  | inl e ↦ rw (e, filter) (e, filter-All s)
  | inr e ↦ rw (e, filter) (filter-All s)
]

filter_kept : (s : Text) → All IsKeyRune s → filter is_key_rune s ≡ s
unfolding filter
filter_kept [] h = refl
filter_kept (c ∷ s) (hc, hs) = rw (hc, filter_kept s hs) refl

to_lower_kept : (tables : Tables) (s : Text) → All IsKeyRune s → to_lower tables s ≡ s
unfolding to_lower
to_lower_kept tables [] h = refl
to_lower_kept tables (c ∷ s) (hc, hs) =
    rw (lower_key_rune tables c hc) (ap (λ t. c ∷ t) (to_lower_kept tables s hs))

-- A normalized key holds letters in lower case and digits only, and normalizing it again does not
-- change it.
normalize_setting_key_lem :
    (tables : Tables) (key : Text)
    → All IsKeyRune (normalize_setting_key tables key)
      × (normalize_setting_key tables (normalize_setting_key tables key)
          ≡ normalize_setting_key tables key)
unfolding normalize_setting_key trim_space
normalize_setting_key_lem tables key =
    let r = filter is_key_rune (to_lower tables (trim_space key)) in
    let safe : All IsKeyRune r = filter-All (to_lower tables (trim_space key)) in
    (
      safe,
      ap (λ t. filter is_key_rune (to_lower tables t))
            (trim_func_kept IsKeyRune is_space key_rune_is_no_space r safe)
          ∙ ap (filter is_key_rune) (to_lower_kept tables r safe)
          ∙ filter_kept r safe,
    )
