-- ===== src/Go/Strings.antt =====
-- Go's `strings` package, as far as the program calls it.
use network_manager_vpn_plug.Prelude.{
  ℕ, Bool, true, false, ◌&&◌, ◌||◌, List, [], ◌∷◌, ◌++◌, map, Option, none, some, ◌==◌,
  if◌then◌else◌, Text, text_eq, is_empty,
}
use network_manager_vpn_plug.Go.Unicode.{Tables, is_space, lower_rune}

-- `c` before a text whose tail is already trimmed.
abbrev pub trim_cons : (ℕ → Bool) → ℕ → Text → Text
trim_cons p c [] = if p c then [] else c ∷ []
trim_cons p c (d ∷ s) = c ∷ d ∷ s

-- `strings.TrimLeftFunc`, `TrimRightFunc` and `TrimFunc`.
unfoldable pub trim_left_func : (ℕ → Bool) → Text → Text
trim_left_func p [] = []
trim_left_func p (c ∷ s) = if p c then trim_left_func p s else c ∷ s

unfoldable pub trim_right_func : (ℕ → Bool) → Text → Text
trim_right_func p [] = []
trim_right_func p (c ∷ s) = trim_cons p c (trim_right_func p s)

unfoldable pub trim_func : (ℕ → Bool) → Text → Text
unfolding trim_left_func trim_right_func
trim_func p s = trim_right_func p (trim_left_func p s)

unfoldable pub trim_space : Text → Text
unfolding trim_func is_space
trim_space = trim_func is_space

unfoldable pub mem_text : ℕ → Text → Bool
mem_text c [] = false
mem_text c (d ∷ s) = c == d || mem_text c s

-- `strings.Trim` with a set of code points.
unfoldable pub trim : Text → Text → Text
unfolding trim_func mem_text
trim s cutset = trim_func (λ c. mem_text c cutset) s

-- `strings.ToLower`.
unfoldable pub to_lower : Tables → Text → Text
unfolding lower_rune
to_lower tables s = map (lower_rune tables) s

unfoldable pub has_prefix : Text → Text → Bool
has_prefix s [] = true
has_prefix [] (d ∷ p) = false
has_prefix (c ∷ s) (d ∷ p) = c == d && has_prefix s p

-- The text behind a prefix, or none.
unfoldable pub cut_prefix : Text → Text → Option Text
cut_prefix s [] = some s
cut_prefix [] (d ∷ p) = none
cut_prefix (c ∷ s) (d ∷ p) = let rest = cut_prefix s p in if c == d then rest else none

abbrev get_or_text : Option Text → Text → Text
get_or_text none s = s
get_or_text (some t) s = t

-- `strings.TrimPrefix`.
unfoldable pub trim_prefix : Text → Text → Text
unfolding cut_prefix
trim_prefix s p = get_or_text (cut_prefix s p) s

abbrev cut_cons : ℕ → Option (Text × Text) → Option (Text × Text)
cut_cons c none = none
cut_cons c (some (before, after)) = some (c ∷ before, after)

-- `strings.Cut` at a separator of one code point; none where it does not occur.
unfoldable pub cut : ℕ → Text → Option (Text × Text)
cut sep [] = none
cut sep (c ∷ s) = if c == sep then some ([], s) else cut_cons c (cut sep s)

-- `strings.Contains`.
unfoldable pub contains : Text → Text → Bool
unfolding has_prefix
contains [] p = is_empty p
contains (c ∷ s) p = has_prefix (c ∷ s) p || contains s p

-- `strings.ReplaceAll` with texts of one code point.
unfoldable pub replace_all : ℕ → ℕ → Text → Text
replace_all old new s = map (λ c. if c == old then new else c) s

abbrev flush_word : Text → List Text → List Text
flush_word [] ws = ws
flush_word (c ∷ w) ws = (c ∷ w) ∷ ws

-- The words of a text, `cur` being the word that the text continues.
unfoldable pub fields_from : Text → Text → List Text
unfolding is_space
fields_from [] cur = flush_word cur []
fields_from (c ∷ s) cur = elim (is_space c) [
  | true ↦ flush_word cur (fields_from s [])
  | false ↦ fields_from s (cur ++ c ∷ [])
]

-- `strings.Fields`.
unfoldable pub fields : Text → List Text
unfolding fields_from
fields s = fields_from s []

-- `strings.Join`.
unfoldable pub join : List Text → Text → Text
join [] sep = []
join (w ∷ []) sep = w
join (w ∷ v ∷ ws) sep = w ++ sep ++ join (v ∷ ws) sep

-- `slices.Contains` on texts.
unfoldable pub contains_text : List Text → Text → Bool
unfolding text_eq
contains_text [] t = false
contains_text (w ∷ ws) t = text_eq w t || contains_text ws t
