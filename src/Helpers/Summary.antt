-- ===== src/Helpers/Summary.antt =====
-- internal/nmplugin/helpers.go: the summaries of settings and of maps.
use network_manager_vpn_plug.Prelude.{◌++◌, ◌≡◌, refl, ap, ◌∙◌, codes}
use network_manager_vpn_plug.Go.Maps.{keys, sort_strings}
use network_manager_vpn_plug.Go.Order.{nil, cons, swap, trans, SameMap, sort_strings_swap}
use network_manager_vpn_plug.Go.Strings.{join}
use network_manager_vpn_plug.Helpers.{
  section_summaries, summarize_section, summarize_settings, summarize_variant_map,
}
use network_manager_vpn_plug.Settings.Values.{ConnectionSettings, VariantMap}

-- The same keys, whatever the values and the order.
abbrev pub SameKeys : VariantMap → VariantMap → Type 0
SameKeys = SameMap (λ v w. Unit)

sorted_keys_same : {l m : VariantMap} → SameKeys l m → sort_strings (keys l) ≡ sort_strings (keys m)
unfolding sort_strings
sorted_keys_same nil = refl
sorted_keys_same (cons k r q) = rw (sorted_keys_same q) refl
sorted_keys_same (swap j k v w l d) = sort_strings_swap j k (keys l)
sorted_keys_same (trans p q) = sorted_keys_same p ∙ sorted_keys_same q

sorted_summaries_same :
    {l m : ConnectionSettings}
    → SameMap SameKeys l m
    → sort_strings (section_summaries l) ≡ sort_strings (section_summaries m)
unfolding sort_strings section_summaries
sorted_summaries_same nil = refl
sorted_summaries_same (cons k r q) = rw (sorted_keys_same r, sorted_summaries_same q) refl
sorted_summaries_same (swap j k v w l d) =
    sort_strings_swap (summarize_section (j, v)) (summarize_section (k, w)) (section_summaries l)
sorted_summaries_same (trans p q) = sorted_summaries_same p ∙ sorted_summaries_same q

summarize_variant_map_same :
    {l m : VariantMap} → SameKeys l m → summarize_variant_map l ≡ summarize_variant_map m
unfolding summarize_variant_map
summarize_variant_map_same nil = refl
summarize_variant_map_same (cons k {v} {w} r q) =
    ap (λ s. codes "{" ++ join s (codes ",") ++ codes "}")
      (sorted_keys_same (cons k {v = v} {w = w} r q))
summarize_variant_map_same (swap j k v w l d) =
    ap (λ s. codes "{" ++ join s (codes ",") ++ codes "}") (sorted_keys_same (swap j k v w l d))
summarize_variant_map_same (trans p q) = summarize_variant_map_same p ∙ summarize_variant_map_same q

summarize_settings_same :
    {s t : ConnectionSettings} → SameMap SameKeys s t → summarize_settings s ≡ summarize_settings t
unfolding summarize_settings
summarize_settings_same nil = refl
summarize_settings_same (cons k r q) =
    ap (λ s. join s (codes "; ")) (sorted_summaries_same (cons k r q))
summarize_settings_same (swap j k v w l d) =
    ap (λ s. join s (codes "; ")) (sorted_summaries_same (swap j k v w l d))
summarize_settings_same (trans p q) = summarize_settings_same p ∙ summarize_settings_same q

-- `summarizeSettings` gives the same text for any two settings with the same sections and keys, and
-- `summarizeVariantMap` for any two maps with the same keys: a summary holds nothing of a value, and
-- nothing of the order in which Go iterates over a map.
pub summaries_same :
    {s t : ConnectionSettings} {l m : VariantMap}
    → SameMap SameKeys s t
    → SameKeys l m
    → (summarize_settings s ≡ summarize_settings t)
      × (summarize_variant_map l ≡ summarize_variant_map m)
summaries_same p q = (summarize_settings_same p, summarize_variant_map_same q)
