-- ===== src/Go/Unicode.antt =====
-- Go's `unicode` package, as far as the program calls it. The tables behind ASCII are data of the
-- Go release, so they are a parameter: every theorem holds whatever they contain.
use network_manager_vpn_plug.Prelude.{ℕ, ◌+◌, Bool, ◌&&◌, ◌||◌, leb, ◌==◌, if◌then◌else◌}

-- What the tables say of a code point above 127.
pub record Tables : Type 0 where
  pub lower : ℕ → ℕ
  pub upper_letter : ℕ → Bool
  pub lower_letter : ℕ → Bool
  pub decimal_digit : ℕ → Bool

abbrev pub within : ℕ → ℕ → ℕ → Bool
within lo hi c = leb lo c && leb c hi

-- `unicode.IsSpace`.
unfoldable pub is_space : ℕ → Bool
is_space c =
    within 9 13 c
    || c == 32
    || c == 0x85
    || c == 0xa0
    || c == 0x1680
    || within 0x2000 0x200a c
    || within 0x2028 0x2029 c
    || c == 0x202f
    || c == 0x205f
    || c == 0x3000

module _ (tables : Tables) where
  -- `unicode.ToLower`.
  unfoldable pub lower_rune : ℕ → ℕ
  lower_rune c = if leb c 127 then if within b'A' b'Z' c then c + 32 else c else tables.lower c

  -- `unicode.IsUpper`, `unicode.IsLower` and `unicode.IsDigit`.
  unfoldable pub is_upper : ℕ → Bool
  is_upper c = if leb c 127 then within b'A' b'Z' c else tables.upper_letter c

  unfoldable pub is_lower : ℕ → Bool
  is_lower c = if leb c 127 then within b'a' b'z' c else tables.lower_letter c

  unfoldable pub is_digit : ℕ → Bool
  is_digit c = if leb c 127 then within b'0' b'9' c else tables.decimal_digit c
