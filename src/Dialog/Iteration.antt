-- ===== src/Dialog/Iteration.antt =====
-- internal/nmauthdialog/dialog.go, `normalizedValues`: a Go map is met in any order, and the result is the
-- same map where no two keys have the same normal form.
use network_manager_vpn_plug.Prelude.{
  Bool, true, false, not, ◌&&◌, [], ◌∷◌, ◌≡◌, ◌∙◌, refl, sym, arith, Text, text_eq, text_eq_iff,
  Bool-cases, inl, inr,
}
use network_manager_vpn_plug.Go.Maps.{
  insert, insert_sorted, lookup, lookup-insert, sort_keys, text_ltb,
}
use network_manager_vpn_plug.Go.Order.{
  nil, cons, swap, trans, SameMap, SameMap-refl, text_ltb_asymm,
}
use network_manager_vpn_plug.Go.Strings.{trim_space}
use network_manager_vpn_plug.Go.Unicode.{Tables}
use network_manager_vpn_plug.Dialog.Hints.{normalized_values}
use network_manager_vpn_plug.Settings.Normal.{normalize_setting_key}
use network_manager_vpn_plug.Settings.Values.{StringMap}

-- Two iterations of one map.
abbrev pub Iterates : StringMap → StringMap → Type 0
Iterates = SameMap (λ v w. v ≡ w)

-- The same value at every key.
abbrev pub SameLookup : StringMap → StringMap → Type 0
SameLookup m n = (k : Text) → lookup k m ≡ lookup k n

ltb_apart : (j k : Text) → text_ltb j k ≡ true → text_eq j k ≡ false
ltb_apart j k h = elim (Bool-cases (text_eq j k)) [
  | inr e ↦ e
  | inl e ↦ ground (arith, text_eq_iff j k, text_ltb_asymm j k)
]

insert_sorted-Iterates : (k v : Text) (m : StringMap) → Iterates ((k, v) ∷ m) (insert_sorted k v m)
unfolding insert_sorted
insert_sorted-Iterates k v [] = SameMap-refl (λ v w. v ≡ w) (λ v. refl) _
insert_sorted-Iterates k v ((j, w) ∷ m) = elim (Bool-cases (text_ltb j k)) [
  | inl e ↦
      rw e (trans (swap k j v w m (ltb_apart j k e)) (cons j refl (insert_sorted-Iterates k v m)))
  | inr e ↦ rw e (SameMap-refl (λ v w. v ≡ w) (λ v. refl) _)
]

pub sort_keys-Iterates : (m : StringMap) → Iterates m (sort_keys m)
unfolding sort_keys
sort_keys-Iterates [] = nil
sort_keys-Iterates ((k, v) ∷ m) =
    trans (cons k refl (sort_keys-Iterates m)) (insert_sorted-Iterates k v (sort_keys m))

insert-SameLookup :
    (k v : Text) (m n : StringMap) → SameLookup m n → SameLookup (insert k v m) (insert k v n)
insert-SameLookup k v m n h j = rw (lookup-insert k j v m, lookup-insert k j v n, h j) refl

insert_swap :
    (j k v w : Text) (m : StringMap)
    → text_eq j k ≡ false
    → SameLookup (insert k w (insert j v m)) (insert j v (insert k w m))
insert_swap j k v w m d i = ground (
  arith,
  lookup-insert k i w (insert j v m),
  lookup-insert j i v m,
  lookup-insert j i v (insert k w m),
  lookup-insert k i w m,
  text_eq_iff j i,
  text_eq_iff k i,
  text_eq_iff j k,
)

module _ (tables : Tables) where
  abbrev norm : Text → Text
  norm key = normalize_setting_key tables key

  -- No key of the map has this normal form.
  abbrev is_absent : Text → StringMap → Bool
  is_absent n [] = true
  is_absent n ((key, value) ∷ rest) = not (text_eq n (norm key)) && is_absent n rest

  -- No two keys of the map have the same normal form.
  unfoldable pub has_distinct_keys : StringMap → Bool
  unfolding normalize_setting_key
  has_distinct_keys [] = true
  has_distinct_keys ((key, value) ∷ rest) = is_absent (norm key) rest && has_distinct_keys rest

  absent_same : (n : Text) {l m : StringMap} → Iterates l m → is_absent n l ≡ is_absent n m
  absent_same n nil = refl
  absent_same n (cons k r q) = rw (absent_same n q) refl
  absent_same n (swap j k v w l d) = ground (arith)
  absent_same n (trans p q) = absent_same n p ∙ absent_same n q

  distinct_same : {l m : StringMap} → Iterates l m → has_distinct_keys l ≡ has_distinct_keys m
  unfolding has_distinct_keys
  distinct_same nil = refl
  distinct_same (cons k r q) = rw (absent_same (norm k) q, distinct_same q) refl
  distinct_same (swap j k v w l d) =
      ground (arith, text_eq_iff (norm j) (norm k), text_eq_iff (norm k) (norm j))
  distinct_same (trans p q) = distinct_same p ∙ distinct_same q

  normalized_values-SameLookup :
      (src m n : StringMap)
      → SameLookup m n
      → SameLookup (normalized_values tables true m src) (normalized_values tables true n src)
  unfolding normalized_values
  normalized_values-SameLookup [] m n h = h
  normalized_values-SameLookup ((key, value) ∷ rest) m n h =
      normalized_values-SameLookup rest _ _ (insert-SameLookup (norm key) (trim_space value) m n h)

  -- Where no two keys have the same normal form, the order of an iteration does not matter.
  pub normalized_values_same :
      {l m : StringMap}
      → Iterates l m
      → has_distinct_keys l ≡ true
      → (out : StringMap)
      → SameLookup (normalized_values tables true out l) (normalized_values tables true out m)
  unfolding normalized_values has_distinct_keys
  normalized_values_same nil h out = λ i. refl
  normalized_values_same (cons k {v} {w} {l} {m} r q) h out = λ i.
      normalized_values-SameLookup l (insert (norm k) (trim_space v) out)
        (insert (norm k) (trim_space w) out) (λ i. rw r refl) i
      ∙ normalized_values_same q (ground arith) (insert (norm k) (trim_space w) out) i
  normalized_values_same (swap j k v w l d) h out =
      normalized_values-SameLookup l _ _
        (insert_swap (norm j) (norm k) (trim_space v) (trim_space w) out (ground arith))
  normalized_values_same (trans p q) h out = λ i.
      normalized_values_same p h out i ∙ normalized_values_same q (sym (distinct_same p) ∙ h) out i
