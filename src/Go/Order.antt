-- ===== src/Go/Order.antt =====
-- Go's `slices.Sort` and `sort.Strings`: the order of texts is total, so that what they return does not
-- depend on the order in which a map was iterated.
use network_manager_vpn_plug.Prelude.{
  true, false, List, [], ◌∷◌, ◌≡◌, refl, ap, ◌∙◌, arith, Text, text_eq, text_eq_iff, Bool-cases,
  inl, inr,
}
use network_manager_vpn_plug.Go.Maps.{insert_sorted, insert_text, sort_keys, sort_strings, text_ltb}

pub text_ltb_asymm : (s t : Text) → text_ltb s t ≡ true → text_ltb t s ≡ false
unfolding text_ltb
text_ltb_asymm (c ∷ s) (d ∷ t) h = ground (arith, text_ltb_asymm s t)
text_ltb_asymm [] (d ∷ t) h = refl
text_ltb_asymm [] [] h = refl
text_ltb_asymm (c ∷ s) [] h = absurd (cc)

text_ltb_connex : (s t : Text) → text_ltb s t ≡ false → text_ltb t s ≡ false → text_eq s t ≡ true
unfolding text_ltb text_eq
text_ltb_connex (c ∷ s) (d ∷ t) h k = ground (arith, text_ltb_connex s t)
text_ltb_connex [] [] h k = refl
text_ltb_connex [] (d ∷ t) h k = cc
text_ltb_connex (c ∷ s) [] h k = cc

text_ltb_cotrans : (s t u : Text) → text_ltb s t ≡ false → text_ltb s u ≡ true → text_ltb t u ≡ true
unfolding text_ltb
text_ltb_cotrans (c ∷ s) (d ∷ t) (e ∷ u) h k = ground (arith, text_ltb_cotrans s t u)
text_ltb_cotrans [] [] u h k = k
text_ltb_cotrans [] (d ∷ t) u h k = cc
text_ltb_cotrans (c ∷ s) [] (e ∷ u) h k = refl
text_ltb_cotrans (c ∷ s) t [] h k = cc

module _ {ℓ} {V : Type ℓ} where
  -- Two different keys can be inserted in either order.
  insert_sorted_comm :
      (j k : Text) (v w : V) (m : List (Text × V))
      → text_eq k j ≡ false
      → insert_sorted j v (insert_sorted k w m) ≡ insert_sorted k w (insert_sorted j v m)
  unfolding insert_sorted
  insert_sorted_comm j k v w [] h =
      ground (arith, text_ltb_asymm j k, text_ltb_connex k j, text_ltb_asymm k j)
  insert_sorted_comm j k v w ((i, u) ∷ m) h = ground (
    arith,
    insert_sorted_comm j k v w m h,
    text_ltb_asymm j k,
    text_ltb_asymm k j,
    text_ltb_connex k j,
    text_ltb_cotrans i j k,
    text_ltb_cotrans i k j,
  )

  -- Entries with the same keys in the same order, and with values that are related.
  pub data Aligned {κ} (R : V → V → Type κ) : List (Text × V) → List (Text × V) → Type (ℓ ⊔ κ) where
    nil : Aligned R [] []
    cons :
        (k : Text) {v w : V} {l m : List (Text × V)}
        → R v w
        → Aligned R l m
        → Aligned R ((k, v) ∷ l) ((k, w) ∷ m)

  -- Two lists of the entries of one map, as two iterations may meet them, where values are related.
  pub data SameMap {κ} (R : V → V → Type κ) : List (Text × V) → List (Text × V) → Type (ℓ ⊔ κ) where
    nil : SameMap R [] []
    cons :
        (k : Text) {v w : V} {l m : List (Text × V)}
        → R v w
        → SameMap R l m
        → SameMap R ((k, v) ∷ l) ((k, w) ∷ m)
    swap :
        (j k : Text) (v w : V) (l : List (Text × V))
        → text_eq k j ≡ false
        → SameMap R ((j, v) ∷ (k, w) ∷ l) ((k, w) ∷ (j, v) ∷ l)
    trans : {l m n : List (Text × V)} → SameMap R l m → SameMap R m n → SameMap R l n

  module _ {κ} (R : V → V → Type κ) (self : (v : V) → R v v) where
    pub Aligned-refl : (l : List (Text × V)) → Aligned R l l
    Aligned-refl [] = nil
    Aligned-refl ((k, v) ∷ l) = cons k (self v) (Aligned-refl l)

    pub SameMap-refl : (l : List (Text × V)) → SameMap R l l
    SameMap-refl [] = nil
    SameMap-refl ((k, v) ∷ l) = cons k (self v) (SameMap-refl l)

    insert_sorted-Aligned :
        (k : Text) {v w : V} {l m : List (Text × V)}
        → R v w
        → Aligned R l m
        → Aligned R (insert_sorted k v l) (insert_sorted k w m)
    unfolding insert_sorted
    insert_sorted-Aligned k r nil = cons k r nil
    insert_sorted-Aligned k r (cons j q a) = elim (Bool-cases (text_ltb j k)) [
      | inl e ↦ rw e (cons j q (insert_sorted-Aligned k r a))
      | inr e ↦ rw e (cons k r (cons j q a))
    ]

    -- What is the same for aligned lists is the same for what is sorted from any two iterations.
    pub sort_keys_same {ℓ₁} :
        {X : Type ℓ₁} (f : List (Text × V) → X) {l m : List (Text × V)}
        → ((s t : List (Text × V)) → Aligned R s t → f s ≡ f t)
        → SameMap R l m
        → f (sort_keys l) ≡ f (sort_keys m)
    unfolding sort_keys
    sort_keys_same f h nil = refl
    sort_keys_same f h (cons k {v} {w} {l} {m} r q) =
        sort_keys_same (λ s. f (insert_sorted k v s))
          (λ s t a. h _ _ (insert_sorted-Aligned k (self v) a)) q
        ∙ h _ _ (insert_sorted-Aligned k r (Aligned-refl (sort_keys m)))
    sort_keys_same f h (swap j k v w l d) = ap f (insert_sorted_comm j k v w (sort_keys l) d)
    sort_keys_same f h (trans p q) = sort_keys_same f h p ∙ sort_keys_same f h q

  Aligned-eq : {l m : List (Text × V)} → Aligned (λ v w. v ≡ w) l m → l ≡ m
  Aligned-eq nil = refl
  Aligned-eq (cons k r a) = ground (arith, r, Aligned-eq a)

  pub sort_keys_eq :
      {l m : List (Text × V)} → SameMap (λ v w. v ≡ w) l m → sort_keys l ≡ sort_keys m
  sort_keys_eq q = sort_keys_same (λ v w. v ≡ w) (λ v. refl) (λ s. s) (λ s t a. Aligned-eq a) q

insert_text_comm :
    (s t : Text) (m : List Text) → insert_text s (insert_text t m) ≡ insert_text t (insert_text s m)
unfolding insert_text
insert_text_comm s t [] =
    ground (arith, text_ltb_asymm s t, text_ltb_connex s t, text_ltb_asymm t s, text_eq_iff s t)
insert_text_comm s t (u ∷ m) = ground (
  arith,
  insert_text_comm s t m,
  text_ltb_asymm s t,
  text_ltb_asymm t s,
  text_ltb_connex s t,
  text_eq_iff s t,
  text_ltb_cotrans u s t,
  text_ltb_cotrans u t s,
)

pub sort_strings_swap :
    (s t : Text) (m : List Text) → sort_strings (s ∷ t ∷ m) ≡ sort_strings (t ∷ s ∷ m)
unfolding sort_strings
sort_strings_swap s t m = insert_text_comm s t (sort_strings m)
