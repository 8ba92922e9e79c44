-- ===== src/Settings/Iteration.antt =====
-- internal/nmplugin/settings.go, `flattenConnectionSettings`: the order in which Go iterates over maps.
use network_manager_vpn_plug.Prelude.{
  List, [], ◌∷◌, ◌++◌, ◌≡◌, refl, ap, ◌∙◌, Text, codes, text_eq, Bool-cases, inl, inr,
}
use network_manager_vpn_plug.Go.Maps.{sort_keys}
use network_manager_vpn_plug.Go.Order.{
  nil, cons, Aligned, Aligned-refl, SameMap, SameMap-refl, sort_keys_eq, sort_keys_same,
}
use network_manager_vpn_plug.Go.Unicode.{Tables}
use network_manager_vpn_plug.Settings.Flatten.{
  SettingEntry, entries_of, flatten_connection_settings, merge_connection, merge_entries,
  merge_nested, merge_normalized_string_map, merge_scalar_setting, merge_vpn, section_entries,
  sorted_section_settings, vpn_setting_name,
}
use network_manager_vpn_plug.Settings.Normal.{normalize_section_name, normalize_setting_key}
use network_manager_vpn_plug.Settings.SameValue.{
  SameVariant, same, variant_to_string_map_same, variant_to_string_same,
}
use network_manager_vpn_plug.Settings.Values.{
  ConnectionSettings, StringMap, Variant, VariantMap, variant_to_string_map,
}

-- The same settings, but for the order in which the sections, the keys of a section and the maps that
-- are values are iterated.
abbrev pub SameSettings : ConnectionSettings → ConnectionSettings → Type 0
SameSettings = SameMap (SameMap SameVariant)

scalar_setting_same :
    (values : StringMap) (k : Text) (v w : Variant)
    → SameVariant v w
    → merge_scalar_setting values k v ≡ merge_scalar_setting values k w
unfolding merge_scalar_setting
scalar_setting_same values k v w s = rw (variant_to_string_same v w s) refl

abbrev AlignedEntries : List SettingEntry → List SettingEntry → Type 0
AlignedEntries = Aligned SameVariant

module _ (tables : Tables) where
  nested_setting_same :
      (values : StringMap) (v w : Variant)
      → SameVariant v w
      → merge_normalized_string_map tables values (variant_to_string_map v)
        ≡ merge_normalized_string_map tables values (variant_to_string_map w)
  unfolding merge_normalized_string_map
  nested_setting_same values v w s =
      ap (merge_entries tables values) (sort_keys_eq (variant_to_string_map_same v w s))

  merge_connection_same :
      {l m : List SettingEntry} (values : StringMap)
      → AlignedEntries l m
      → merge_connection tables values l ≡ merge_connection tables values m
  unfolding merge_connection
  merge_connection_same values nil = refl
  merge_connection_same values (cons k {v} {w} s a) =
      rw (scalar_setting_same values k v w s) (merge_connection_same _ a)

  merge_vpn_same :
      {l m : List SettingEntry} (values : StringMap)
      → AlignedEntries l m
      → merge_vpn tables values l ≡ merge_vpn tables values m
  unfolding merge_vpn
  merge_vpn_same values nil = refl
  merge_vpn_same values (cons k {v} {w} s a) =
      rw (scalar_setting_same values k v w s) (merge_vpn_same _ a)

  merge_nested_same :
      {l m : List SettingEntry} (nested : Text) (values : StringMap)
      → AlignedEntries l m
      → merge_nested tables nested values l ≡ merge_nested tables nested values m
  unfolding merge_nested
  merge_nested_same nested values nil = refl
  merge_nested_same nested values (cons k {v} {w} s a) =
      rw (nested_setting_same values v w s) (merge_nested_same nested _ a)

  entries_of-Aligned :
      {l m : VariantMap}
      → Aligned SameVariant l m
      → AlignedEntries (entries_of tables l) (entries_of tables m)
  unfolding entries_of
  entries_of-Aligned nil = nil
  entries_of-Aligned (cons k s a) = cons (normalize_setting_key tables k) s (entries_of-Aligned a)

  append-Aligned :
      {l m : List SettingEntry} (n : List SettingEntry)
      → AlignedEntries l m
      → AlignedEntries (l ++ n) (m ++ n)
  append-Aligned n nil = Aligned-refl SameVariant same n
  append-Aligned n (cons k s a) = cons k s (append-Aligned n a)

  append_right-Aligned :
      {l m : List SettingEntry} (n : List SettingEntry)
      → AlignedEntries l m
      → AlignedEntries (n ++ l) (n ++ m)
  append_right-Aligned [] a = a
  append_right-Aligned ((k, v) ∷ n) a = cons k (same v) (append_right-Aligned n a)

  -- A function of entries that does not look into the order of a map.
  abbrev Ignores {ℓ} : {X : Type ℓ} → (List SettingEntry → X) → Type ℓ
  Ignores f = (l m : List SettingEntry) → AlignedEntries l m → f l ≡ f m

  section_entries_same {ℓ} :
      {X : Type ℓ} (f : List SettingEntry → X) (name : Text) {l m : ConnectionSettings}
      → Ignores f
      → Aligned (SameMap SameVariant) l m
      → f (section_entries tables name l) ≡ f (section_entries tables name m)
  unfolding section_entries
  section_entries_same f name h nil = refl
  section_entries_same f name h (cons k {v} {w} {l} {m} s a) =
      elim (Bool-cases (text_eq (normalize_section_name tables k) name)) [
        | inl e ↦ rw e (
            sort_keys_same SameVariant same
              (λ t. f (entries_of tables t ++ section_entries tables name l))
              (λ t u b. h _ _ (append-Aligned _ (entries_of-Aligned b))) s
            ∙ section_entries_same (λ t. f (entries_of tables (sort_keys w) ++ t)) name
                (λ t u b. h _ _ (append_right-Aligned (entries_of tables (sort_keys w)) b)) a)
        | inr e ↦ rw e (section_entries_same f name h a)
      ]

  abbrev vpn_name : Text
  vpn_name = vpn_setting_name tables

  abbrev flattened : List SettingEntry → List SettingEntry → StringMap
  flattened connection vpn =
      merge_nested tables (codes "secrets")
        (merge_nested tables (codes "data")
          (merge_vpn tables (merge_connection tables [] connection) vpn) vpn)
        vpn

  flattened_connection : (vpn : List SettingEntry) → Ignores (λ c. flattened c vpn)
  flattened_connection vpn l m a = rw (merge_connection_same [] a) refl

  flattened_vpn : (connection : List SettingEntry) → Ignores (flattened connection)
  flattened_vpn connection l m a =
      rw
        (
          merge_vpn_same (merge_connection tables [] connection) a,
          merge_nested_same (codes "data")
              (merge_vpn tables (merge_connection tables [] connection) m) a,
        )
        (merge_nested_same (codes "secrets") _ a)

  sections_same :
      (l m : ConnectionSettings)
      → Aligned (SameMap SameVariant) l m
      → flattened
          (section_entries tables (codes "connection") l)
          (section_entries tables vpn_name l)
        ≡ flattened
            (section_entries tables (codes "connection") m)
            (section_entries tables vpn_name m)
  sections_same l m a =
      section_entries_same (λ c. flattened c (section_entries tables vpn_name l))
        (codes "connection") (flattened_connection (section_entries tables vpn_name l)) a
      ∙ section_entries_same (flattened (section_entries tables (codes "connection") m)) vpn_name
          (flattened_vpn (section_entries tables (codes "connection") m)) a

  -- The flattened settings do not depend on the order in which Go iterates over the sections, over the
  -- keys of a section or over the maps that are values.
  pub flatten_connection_settings_same :
      {s t : ConnectionSettings}
      → SameSettings s t
      → flatten_connection_settings tables s ≡ flatten_connection_settings tables t
  unfolding flatten_connection_settings sorted_section_settings
  flatten_connection_settings_same q =
      sort_keys_same (SameMap SameVariant) (SameMap-refl SameVariant same)
        (λ l.
          flattened (section_entries tables (codes "connection") l)
            (section_entries tables vpn_name l))
        sections_same q
