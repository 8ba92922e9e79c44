-- ===== src/Settings/SameValue.antt =====
-- internal/nmplugin/settings.go: `variantToString` and `variantToStringMap` on maps that are iterated in
-- another order.
use network_manager_vpn_plug.Prelude.{
  false, List, Option, none, some, ◌≡◌, refl, Text, text_eq, Option-cases, inl, inr,
}
use network_manager_vpn_plug.Go.Order.{nil, cons, swap, trans, SameMap, SameMap-refl}
use network_manager_vpn_plug.Settings.Values.{
  Scalar, StringMap, Variant, any_map, text_map, variant_map, variant_to_string,
  variant_to_string_map, scalars_to_strings, keep_text, any_to_string,
}

-- The same value, but for the order in which maps in it are iterated.
pub data SameVariant : Variant → Variant → Type 0 where
  same : (v : Variant) → SameVariant v v
  texts :
      {l m : List (Text × Text)}
      → SameMap (λ v w. v ≡ w) l m
      → SameVariant (text_map l) (text_map m)
  variants :
      {l m : List (Text × Scalar)}
      → SameMap (λ v w. v ≡ w) l m
      → SameVariant (variant_map l) (variant_map m)
  anys :
      {l m : List (Text × Scalar)}
      → SameMap (λ v w. v ≡ w) l m
      → SameVariant (any_map l) (any_map m)

keep_text_cons :
    (k : Text) {v w : Scalar} {l m : StringMap}
    → v ≡ w
    → SameMap (λ s t. s ≡ t) l m
    → SameMap (λ s t. s ≡ t) (keep_text k (any_to_string v) l) (keep_text k (any_to_string w) m)
keep_text_cons k {v} {w} {l} {m} e q = elim (Option-cases (any_to_string v)) [
  | inl n ↦ rw (← e, n) q
  | inr (t, n) ↦ rw (← e, n) (SameMap.cons k refl q)
]

keep_text_swap :
    (j k : Text) (o p : Option Text) (l : StringMap)
    → text_eq k j ≡ false
    → SameMap (λ s t. s ≡ t) (keep_text j o (keep_text k p l)) (keep_text k p (keep_text j o l))
keep_text_swap j k none none l d = SameMap-refl (λ s t. s ≡ t) (λ s. refl) l
keep_text_swap j k none (some t) l d = SameMap-refl (λ s t. s ≡ t) (λ s. refl) _
keep_text_swap j k (some s) none l d = SameMap-refl (λ s t. s ≡ t) (λ s. refl) _
keep_text_swap j k (some s) (some t) l d = SameMap.swap j k s t l d

scalars_to_strings_same :
    {l m : List (Text × Scalar)}
    → SameMap (λ v w. v ≡ w) l m
    → SameMap (λ s t. s ≡ t) (scalars_to_strings l) (scalars_to_strings m)
unfolding scalars_to_strings
scalars_to_strings_same nil = SameMap.nil
scalars_to_strings_same (cons k e q) = keep_text_cons k e (scalars_to_strings_same q)
scalars_to_strings_same (swap j k v w l d) =
    keep_text_swap j k (any_to_string v) (any_to_string w) (scalars_to_strings l) d
scalars_to_strings_same (trans p q) =
    SameMap.trans (scalars_to_strings_same p) (scalars_to_strings_same q)

pub variant_to_string_map_same :
    (v w : Variant)
    → SameVariant v w
    → SameMap (λ s t. s ≡ t) (variant_to_string_map v) (variant_to_string_map w)
unfolding variant_to_string_map
variant_to_string_map_same _ _ (same v) = SameMap-refl (λ s t. s ≡ t) (λ s. refl) _
variant_to_string_map_same _ _ (texts q) = q
variant_to_string_map_same _ _ (variants q) = scalars_to_strings_same q
variant_to_string_map_same _ _ (anys q) = scalars_to_strings_same q

pub variant_to_string_same :
    (v w : Variant) → SameVariant v w → variant_to_string v ≡ variant_to_string w
unfolding variant_to_string
variant_to_string_same _ _ (same v) = refl
variant_to_string_same _ _ (texts q) = refl
variant_to_string_same _ _ (variants q) = refl
variant_to_string_same _ _ (anys q) = refl
