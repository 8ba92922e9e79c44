-- ===== src/Dialog/Agreement.antt =====
-- internal/nmauthdialog/dialog.go with internal/nmplugin: the service and the helper read the same data
-- of a connection.
use network_manager_vpn_plug.Prelude.{
  true, false, ◌||◌, ◌&&◌, List, [], ◌∷◌, ◌≡◌, ◌∙◌, refl, ap, sym, arith, All, Text, codes, text_eq,
  is_empty, if◌then◌else◌, Bool-cases, inl, inr,
}
use network_manager_vpn_plug.Go.Maps.{insert, lookup, lookup-insert, or_empty, sort_keys}
use network_manager_vpn_plug.Go.Strings.{to_lower, trim_prefix, trim_space}
use network_manager_vpn_plug.Go.Trim.{trim_space-nil, trim_space-trim_space}
use network_manager_vpn_plug.Go.Unicode.{Tables}
use network_manager_vpn_plug.Dialog.Hints.{
  HintValues, first_of_keys, first_setting_value, has_setup_key, normalized_values, parse_hints,
  sso_requested,
}
use network_manager_vpn_plug.Dialog.Iteration.{
  Iterates, SameLookup, has_distinct_keys, normalized_values_same, sort_keys-Iterates,
}
use network_manager_vpn_plug.Go.Order.{trans}
use network_manager_vpn_plug.Dialog.Protocol.{VpnDetails}
use network_manager_vpn_plug.Dialog.Response.{
  Desktop, Options, interaction_unavailable, refused, setup_key_requirement,
  write_external_setup_key, written, write_response, write_setup_key,
}
use network_manager_vpn_plug.Settings.Flatten.{
  first_setting, flatten_connection_settings, merge_connection, merge_entries, merge_nested,
  merge_normalized_string_map, merge_vpn, vpn_setting_name, section_entries, setting_at,
  sorted_section_settings,
}
use network_manager_vpn_plug.Settings.Normal.{
  is_key_rune, normalize_auth_mode, normalize_section_name, normalize_setting_key,
}
use network_manager_vpn_plug.Service.Queries.{need_secrets}
use network_manager_vpn_plug.Settings.Parse.{
  ActivationSettings, auth_keys, needs_setup_key_secret, parse_activation_settings, setup_key_keys,
}
use network_manager_vpn_plug.Settings.Values.{
  ConnectionSettings, StringMap, text_map, variant_to_string_map,
}

empty_apart : (n k : Text) → is_empty n ≡ true → is_empty k ≡ false → text_eq n k ≡ false
unfolding text_eq
empty_apart [] [] e f = absurd (cc)
empty_apart [] (c ∷ k) e f = refl
empty_apart (d ∷ n) k e f = absurd (cc)

-- What a connection of this data alone holds.
abbrev pub connection_of : StringMap → ConnectionSettings
connection_of d = (codes "vpn", (codes "data", text_map d) ∷ []) ∷ []

module _ (tables : Tables) where
  flatten-connection_of :
      (d : StringMap)
      → flatten_connection_settings tables (connection_of d) ≡ merge_entries tables [] (sort_keys d)
  unfolding flatten_connection_settings merge_connection merge_vpn merge_nested
      merge_normalized_string_map sorted_section_settings section_entries sort_keys
      normalize_section_name normalize_setting_key to_lower trim_space trim_prefix text_eq
      variant_to_string_map is_key_rune
  flatten-connection_of d = refl

  module _ (k : Text) (there : is_empty k ≡ false) where
    -- The same value for the key in both maps, which is trimmed.
    abbrev Alike : StringMap → StringMap → Type 0
    Alike dst out =
        (lookup k dst ≡ lookup k out)
        × (trim_space (or_empty (lookup k out)) ≡ or_empty (lookup k out))

    insert-Alike :
        (n v : Text) (dst out : StringMap)
        → Alike dst out
        → Alike
            (if is_empty n then dst else insert n (trim_space v) dst)
            (insert n (trim_space v) out)
    insert-Alike n v dst out h = ground (
      arith,
      lookup-insert n k (trim_space v) dst,
      lookup-insert n k (trim_space v) out,
      trim_space-trim_space v,
      empty_apart n k,
    )

    merge_entries-Alike :
        (src dst out : StringMap)
        → Alike dst out
        → Alike (merge_entries tables dst src) (normalized_values tables true out src)
    unfolding merge_entries normalized_values
    merge_entries-Alike [] dst out h = h
    merge_entries-Alike ((key, value) ∷ rest) dst out h =
        merge_entries-Alike rest _ _
          (insert-Alike (normalize_setting_key tables key) value dst out h)

  -- Both read the same value of a key.
  read_alike :
      (d : StringMap) (key : Text)
      → is_empty (normalize_setting_key tables key) ≡ false
      → setting_at tables (merge_entries tables [] (sort_keys d)) key
        ≡ or_empty (
            lookup
              (normalize_setting_key tables key)
              (normalized_values tables true [] (sort_keys d)))
  unfolding setting_at lookup
  read_alike d key there =
      let k = normalize_setting_key tables key in
      let (same, trimmed) =
        merge_entries-Alike k there (sort_keys d) [] [] (refl, trim_space-nil) in
      ap (λ v. trim_space (or_empty v)) same ∙ trimmed

  -- Keys that are not blank once they are normalized.
  abbrev IsNamed : Text → Type 0
  IsNamed key = is_empty (normalize_setting_key tables key) ≡ false

  first_alike :
      (d : StringMap) (keys : List Text)
      → All IsNamed keys
      → first_setting tables (merge_entries tables [] (sort_keys d)) keys
        ≡ first_of_keys tables (normalized_values tables true [] (sort_keys d)) keys
  unfolding first_setting first_of_keys
  first_alike d [] h = refl
  first_alike d (key ∷ keys) (h, hs) = rw (read_alike d key h, first_alike d keys hs) refl

  first_of_keys-nil : (keys : List Text) → first_of_keys tables [] keys ≡ []
  unfolding first_of_keys lookup
  first_of_keys-nil [] = refl
  first_of_keys-nil (key ∷ keys) = first_of_keys-nil keys

  -- An empty map is not asked.
  first_guarded :
      (m : StringMap) (keys : List Text)
      → first_setting_value tables m true keys
        ≡ first_of_keys tables (normalized_values tables true [] m) keys
  unfolding first_setting_value normalized_values
  first_guarded [] keys = sym (first_of_keys-nil keys)
  first_guarded (e ∷ m) keys = refl

  first_of_keys_same :
      (m n : StringMap) (keys : List Text)
      → SameLookup m n
      → first_of_keys tables m keys ≡ first_of_keys tables n keys
  unfolding first_of_keys
  first_of_keys_same m n [] h = refl
  first_of_keys_same m n (key ∷ keys) h =
      rw (h (normalize_setting_key tables key), first_of_keys_same m n keys h) refl

  -- The helper's lookup, over any iteration, is the one of the service.
  same_setting :
      (d values : StringMap) (keys : List Text)
      → Iterates values d
      → has_distinct_keys tables values ≡ true
      → All IsNamed keys
      → first_setting_value tables values true keys
        ≡ first_setting tables (flatten_connection_settings tables (connection_of d)) keys
  same_setting d values keys q distinct h =
      first_guarded values keys
      ∙ first_of_keys_same _ _ keys
          (normalized_values_same tables (trans q (sort_keys-Iterates d)) distinct [])
      ∙ sym (first_alike d keys h)
      ∙ ap (λ v. first_setting tables v keys) (sym (flatten-connection_of d))

  auth_keys-IsNamed : All IsNamed auth_keys
  unfolding normalize_setting_key to_lower trim_space is_key_rune
  auth_keys-IsNamed = (refl, (refl, (refl, (refl, tt))))

  setup_key_keys-IsNamed : All IsNamed setup_key_keys
  unfolding normalize_setting_key to_lower trim_space is_key_rune
  setup_key_keys-IsNamed = (refl, (refl, (refl, tt)))

  -- What the helper is given of the data.
  abbrev pub details_of : StringMap → VpnDetails
  details_of values = record { values = values; secrets = [] }

  -- The settings that the service reads from the same data.
  abbrev pub settings_of : StringMap → ActivationSettings
  settings_of d = parse_activation_settings tables (connection_of d)

  requirement_alike :
      (d values : StringMap) (hints : HintValues)
      → Iterates values d
      → has_distinct_keys tables values ≡ true
      → setup_key_requirement tables hints (details_of values) ≡ (
        text_eq (settings_of d).auth_mode (codes "setup-key") || has_setup_key tables hints,
        (settings_of d).setup_key,
      )
  unfolding setup_key_requirement parse_activation_settings first_setting_value
  requirement_alike d values hints q distinct =
      ap
        (λ v. (
          text_eq (normalize_auth_mode tables v) (codes "setup-key") || has_setup_key tables hints,
          first_setting_value tables values true setup_key_keys,
        ))
        (same_setting d values auth_keys q distinct auth_keys-IsNamed)
      ∙ ap
          (λ v. (
            text_eq (settings_of d).auth_mode (codes "setup-key") || has_setup_key tables hints,
            v,
          ))
          (same_setting d values setup_key_keys q distinct setup_key_keys-IsNamed)

  key_needed :
      (s : ActivationSettings)
      → needs_setup_key_secret s ≡ true
      → (text_eq s.auth_mode (codes "setup-key") ≡ true)
        × (is_empty (trim_space s.setup_key) ≡ true)
  unfolding needs_setup_key_secret
  key_needed s h = ground arith

  need_secrets-true :
      (d : StringMap)
      → need_secrets tables (connection_of d) ≡ vpn_setting_name tables
      → needs_setup_key_secret (settings_of d) ≡ true
  unfolding need_secrets
  need_secrets-true d h = elim (Bool-cases (needs_setup_key_secret (settings_of d))) [
    | inl e ↦ e
    | inr e ↦
        let none_needed : need_secrets tables (connection_of d) ≡ [] = simp e refl in
        let same : [] ≡ vpn_setting_name tables = sym none_needed ∙ h in absurd (cc)
  ]

  -- What is written for a key that is blank.
  blank_key_asked :
      (desktop : Desktop) (opts : Options) (hints : HintValues) (key : Text)
      → is_empty (trim_space key) ≡ true
      → write_setup_key tables desktop opts hints key ≡ (
          if opts.external_ui_mode && opts.allow_interaction
          then written (write_external_setup_key tables hints key true)
          else refused interaction_unavailable)
  unfolding write_setup_key
  blank_key_asked desktop opts hints key e = ground (arith, e)

  required_response :
      (desktop : Desktop) (opts : Options) (details : VpnDetails) (key : Text)
      → sso_requested tables (parse_hints tables opts.hints) ≡ false
      → setup_key_requirement tables (parse_hints tables opts.hints) details ≡ (true, key)
      → write_response tables desktop opts details
        ≡ write_setup_key tables desktop opts (parse_hints tables opts.hints) key
  unfolding write_response
  required_response desktop opts details key no_sso r = simp (no_sso, r) refl

  -- Where the service asks for secrets, from data alone of which no two keys have the same normal form,
  -- and no SSO login is under way, the helper that is given this data, and iterates over it in any
  -- order, never answers that no secret is needed: a frontend that may interact is told to ask for the
  -- setup key, and otherwise it is an error.
  pub need_secrets_answered :
      (d values : StringMap) (desktop : Desktop) (opts : Options)
      → Iterates values d
      → has_distinct_keys tables values ≡ true
      → need_secrets tables (connection_of d) ≡ vpn_setting_name tables
      → sso_requested tables (parse_hints tables opts.hints) ≡ false
      → write_response tables desktop opts (details_of values) ≡ (
          if opts.external_ui_mode && opts.allow_interaction
          then written (
              write_external_setup_key tables
                (parse_hints tables opts.hints)
                (settings_of d).setup_key
                true)
          else refused interaction_unavailable)
  need_secrets_answered d values desktop opts q distinct h no_sso =
      let hints = parse_hints tables opts.hints in
      let key = (settings_of d).setup_key in
      let (mode, empty) = key_needed (settings_of d) (need_secrets-true d h) in
      let required : setup_key_requirement tables hints (details_of values) ≡ (true, key) =
        requirement_alike d values hints q distinct
        ∙ ap (λ b. (b || has_setup_key tables hints, key)) mode in
      required_response desktop opts (details_of values) key no_sso required
      ∙ blank_key_asked desktop opts hints key empty
