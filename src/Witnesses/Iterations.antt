-- ===== src/Witnesses/Iterations.antt =====
-- internal/nmplugin/settings.go and helpers.go: one connection, as two iterations meet it.
use network_manager_vpn_plug.Prelude.{[], ◌∷◌, ◌≡◌, refl, Text, text_eq, codes}
use network_manager_vpn_plug.Go.Order.{SameMap, nil, cons, swap, trans}
use network_manager_vpn_plug.Helpers.{summarize_settings, summarize_variant_map}
use network_manager_vpn_plug.Helpers.Summary.{SameKeys, summaries_same}
use network_manager_vpn_plug.Settings.Flatten.{flatten_connection_settings}
use network_manager_vpn_plug.Settings.Iteration.{SameSettings, flatten_connection_settings_same}
use network_manager_vpn_plug.Settings.SameValue.{SameVariant, texts}
use network_manager_vpn_plug.Settings.Values.{
  ConnectionSettings, Variant, VariantMap, scalar, text, text_map,
}
use network_manager_vpn_plug.Status.Words.{ascii_only}

abbrev id : VariantMap
id = (codes "id", scalar (text (codes "work"))) ∷ []

abbrev data_map : Variant
data_map = text_map ((codes "setup-key", codes "A") ∷ (codes "setupKey", codes "B") ∷ [])

abbrev data_map_again : Variant
data_map_again = text_map ((codes "setupKey", codes "B") ∷ (codes "setup-key", codes "A") ∷ [])

abbrev settings : ConnectionSettings
settings = (codes "connection", id) ∷ (codes "vpn", (codes "data", data_map) ∷ []) ∷ []

abbrev settings_again : ConnectionSettings
settings_again = (codes "vpn", (codes "data", data_map_again) ∷ []) ∷ (codes "connection", id) ∷ []

data_same : SameVariant data_map data_map_again
unfolding text_eq
data_same = texts (swap (codes "setup-key") (codes "setupKey") (codes "A") (codes "B") [] refl)

id_same : SameMap SameVariant id id
id_same = cons (codes "id") (SameVariant.same (scalar (text (codes "work")))) nil

settings_same : SameSettings settings settings_again
unfolding text_eq
settings_same =
    trans
      (cons (codes "connection") id_same
        (cons (codes "vpn") (cons (codes "data") data_same nil) nil))
      (swap (codes "connection") (codes "vpn") id ((codes "data", data_map_again) ∷ []) [] refl)

flatten_connection_settings_same_example :
    flatten_connection_settings ascii_only settings
    ≡ flatten_connection_settings ascii_only settings_again
flatten_connection_settings_same_example = flatten_connection_settings_same ascii_only settings_same

abbrev secret : Text → VariantMap
secret value =
    (codes "setup-key", scalar (text value)) ∷ (codes "sso", scalar (text (codes "x"))) ∷ []

abbrev other_secret : VariantMap
other_secret =
    (codes "sso", scalar (text (codes "y"))) ∷ (codes "setup-key", scalar (text (codes "B2"))) ∷ []

secret_same : SameKeys (secret (codes "A1")) other_secret
unfolding text_eq
secret_same =
    trans
      (swap (codes "setup-key") (codes "sso") (scalar (text (codes "A1")))
        (scalar (text (codes "x"))) [] refl)
      (cons (codes "sso") tt (cons (codes "setup-key") tt nil))

summaries_same_example :
    (summarize_settings ((codes "vpn", secret (codes "A1")) ∷ [])
      ≡ summarize_settings ((codes "vpn", other_secret) ∷ []))
    × (summarize_variant_map (secret (codes "A1")) ≡ summarize_variant_map other_secret)
summaries_same_example = summaries_same (cons (codes "vpn") secret_same nil) secret_same
