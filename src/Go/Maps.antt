-- ===== src/Go/Maps.antt =====
-- Go maps with text keys: a list of entries, in the order in which one iteration meets them. The
-- keys of a map differ from one another.
use network_manager_vpn_plug.Prelude.{
  Bool, true, false, ◌&&◌, ◌||◌, List, [], ◌∷◌, ◌≡◌, refl, arith, Option, none, some, ltb, ◌==◌,
  if◌then◌else◌, Text, text_eq, text_eq_iff,
}

-- The order of texts by their code points, which is that of their bytes in UTF-8.
unfoldable pub text_ltb : Text → Text → Bool
text_ltb [] [] = false
text_ltb [] (d ∷ t) = true
text_ltb (c ∷ s) [] = false
text_ltb (c ∷ s) (d ∷ t) = ltb c d || (c == d && text_ltb s t)

abbrev pub or_empty : Option Text → Text
or_empty none = []
or_empty (some t) = t

module _ {ℓ} {V : Type ℓ} where
  unfoldable pub lookup : Text → List (Text × V) → Option V
  unfolding text_eq
  lookup k [] = none
  lookup k ((j, v) ∷ m) = if text_eq j k then some v else lookup k m

  -- `m[k] = v`.
  unfoldable pub insert : Text → V → List (Text × V) → List (Text × V)
  unfolding text_eq
  insert k v [] = (k, v) ∷ []
  insert k v ((j, w) ∷ m) = if text_eq j k then (k, v) ∷ m else (j, w) ∷ insert k v m

  -- `slices.Sort` on the keys, each with its value.
  unfoldable pub insert_sorted : Text → V → List (Text × V) → List (Text × V)
  unfolding text_ltb
  insert_sorted k v [] = (k, v) ∷ []
  insert_sorted k v ((j, w) ∷ m) =
      if text_ltb j k then (j, w) ∷ insert_sorted k v m else (k, v) ∷ (j, w) ∷ m

  unfoldable pub sort_keys : List (Text × V) → List (Text × V)
  unfolding insert_sorted
  sort_keys [] = []
  sort_keys ((k, v) ∷ m) = insert_sorted k v (sort_keys m)

  pub lookup-insert :
      (k j : Text) (v : V) (m : List (Text × V))
      → lookup j (insert k v m) ≡ (if text_eq k j then some v else lookup j m)
  unfolding lookup insert
  lookup-insert k j v [] = refl
  lookup-insert k j v ((i, w) ∷ m) =
      ground (arith, text_eq_iff k j, text_eq_iff i k, text_eq_iff i j, lookup-insert k j v m)

  -- The keys, in the order of an iteration.
  abbrev pub keys : List (Text × V) → List Text
  keys [] = []
  keys ((k, v) ∷ m) = k ∷ keys m

-- `sort.Strings`.
unfoldable pub insert_text : Text → List Text → List Text
unfolding text_ltb
insert_text s [] = s ∷ []
insert_text s (t ∷ ts) = if text_ltb t s then t ∷ insert_text s ts else s ∷ t ∷ ts

unfoldable pub sort_strings : List Text → List Text
unfolding insert_text
sort_strings [] = []
sort_strings (t ∷ ts) = insert_text t (sort_strings ts)
