-- ===== src/Settings/Values.antt =====
-- internal/nmplugin/settings.go: D-Bus variants as texts, `variantToString` and its siblings.
use network_manager_vpn_plug.Prelude.{ℕ, Bool, List, [], ◌∷◌, Option, none, some, Text}
use network_manager_vpn_plug.Go.Decimal.{ℤ, format_uint, format_int, format_bool}

-- A value as `anyToString` tells it apart: `signed` is an int, int32 or int64, `unsigned` a uint,
-- uint32 or uint64, `bytes` holds the text that the bytes spell, and `stringer` what `String()` gives.
pub data Scalar : Type 0 where
  text bytes stringer : Text → Scalar
  boolean : Bool → Scalar
  signed : ℤ → Scalar
  unsigned : ℕ → Scalar
  other : Scalar

pub data Variant : Type 0 where
  scalar : Scalar → Variant
  text_list : List Text → Variant
  variant_list any_list : List Scalar → Variant
  text_map : List (Text × Text) → Variant
  variant_map any_map : List (Text × Scalar) → Variant

-- `a{sv}` and `a{sa{sv}}`.
abbrev pub VariantMap : Type 0
VariantMap = List (Text × Variant)

abbrev pub ConnectionSettings : Type 0
ConnectionSettings = List (Text × VariantMap)

abbrev pub StringMap : Type 0
StringMap = List (Text × Text)

unfoldable pub any_to_string : Scalar → Option Text
unfolding format_uint format_int format_bool
any_to_string (text t) = some t
any_to_string (bytes t) = some t
any_to_string (stringer t) = some t
any_to_string (boolean b) = some (format_bool b)
any_to_string (signed n) = some (format_int n)
any_to_string (unsigned n) = some (format_uint n)
any_to_string other = none

unfoldable pub variant_to_string : Variant → Option Text
unfolding any_to_string
variant_to_string (scalar v) = any_to_string v
variant_to_string _ = none

abbrev pub keep_text : Text → Option Text → StringMap → StringMap
keep_text key none out = out
keep_text key (some value) out = (key, value) ∷ out

-- The loop over a map of values; the keys of a map differ, so an entry is never overwritten.
unfoldable pub scalars_to_strings : List (Text × Scalar) → StringMap
unfolding any_to_string
scalars_to_strings [] = []
scalars_to_strings ((key, value) ∷ rest) =
    keep_text key (any_to_string value) (scalars_to_strings rest)

unfoldable pub variant_map_to_strings : VariantMap → StringMap
unfolding variant_to_string
variant_map_to_strings [] = []
variant_map_to_strings ((key, value) ∷ rest) =
    keep_text key (variant_to_string value) (variant_map_to_strings rest)

unfoldable pub variant_to_string_map : Variant → StringMap
unfolding scalars_to_strings
variant_to_string_map (text_map m) = m
variant_to_string_map (variant_map m) = scalars_to_strings m
variant_to_string_map (any_map m) = scalars_to_strings m
variant_to_string_map _ = []

abbrev collect : Option Text → List Text → List Text
collect none out = out
collect (some t) out = t ∷ out

unfoldable pub scalar_texts : List Scalar → List Text
unfolding any_to_string
scalar_texts [] = []
scalar_texts (item ∷ rest) = collect (any_to_string item) (scalar_texts rest)
