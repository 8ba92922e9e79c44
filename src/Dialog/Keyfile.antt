-- ===== src/Dialog/Keyfile.antt =====
-- internal/nmauthdialog/dialog.go: the two output formats, keyfile groups and plain lines.
pub mod Escape
pub mod Lines
use network_manager_vpn_plug.Prelude.{
  ℕ, Bool, true, false, not, ◌&&◌, ◌||◌, List, [], ◌∷◌, ◌++◌, ◌==◌, if◌then◌else◌, Text, codes,
  is_empty,
}
use network_manager_vpn_plug.Go.Decimal.{format_bool}
use network_manager_vpn_plug.Go.Strings.{mem_text}

-- What `escapeKeyfileValue` writes for one code point, with the flag `leading` before and behind it.
abbrev pub escape_rune : Bool → ℕ → Text
escape_rune leading c =
    if c == b'\\'
    then b'\\' ∷ b'\\' ∷ []
    else if c == b'\n'
    then b'\\' ∷ b'n' ∷ []
    else if c == b'\r'
    then b'\\' ∷ b'r' ∷ []
    else if c == b'\t'
    then b'\\' ∷ b't' ∷ []
    else if c == b' '
    then (if leading then b'\\' ∷ b's' ∷ [] else c ∷ [])
    else c ∷ []

unfoldable pub escape_from : Bool → Text → Text
escape_from leading [] = []
escape_from leading (c ∷ s) = escape_rune leading c ++ escape_from (leading && c == b' ') s

unfoldable pub escape_keyfile_value : Text → Text
unfolding escape_from
escape_keyfile_value value = escape_from true value

-- A line `key=value` of the header, left out for an empty value.
abbrev pub header_line : Text → Text → Text
header_line key value =
    if is_empty value then [] else key ++ (escape_keyfile_value value ++ (b'\n' ∷ []))

unfoldable pub write_keyfile_ui_header : Text → Text → Text
unfolding escape_keyfile_value
write_keyfile_ui_header title description =
    codes "[VPN Plugin UI]\nVersion=2\n"
    ++ (header_line (codes "Description=") description
        ++ (header_line (codes "Title=") title ++ (b'\n' ∷ [])))

unfoldable pub write_keyfile_entry : Text → Text → Text → Bool → Bool → Text
unfolding escape_keyfile_value format_bool
write_keyfile_entry key value label is_secret should_ask =
    codes "["
    ++ (key
        ++ (codes "]\nValue="
            ++ (escape_keyfile_value value
                ++ (codes "\nLabel="
                    ++ (escape_keyfile_value label
                        ++ (codes "\nIsSecret="
                            ++ (format_bool is_secret
                                ++ (codes "\nShouldAsk="
                                    ++ (format_bool should_ask ++ (b'\n' ∷ []))))))))))

-- `standardSecret`.
pub record StandardSecret : Type 0 where
  pub key : Text
  pub value : Text

-- `strings.ContainsAny(s, "\n\r\x00")`.
unfoldable pub has_line_break : Text → Bool
has_line_break [] = false
has_line_break (c ∷ s) = (c == b'\n' || c == b'\r' || c == 0) || has_line_break s

abbrev line_before : Text → Text → Text × Bool → Text × Bool
line_before key value (out, complete) = (key ++ (b'\n' ∷ (value ++ (b'\n' ∷ out))), complete)

-- `writeStandardSecrets`: what is written, and whether no error has ended it. The secrets before the
-- first that cannot be written are written all the same.
unfoldable pub write_standard_secrets : List StandardSecret → Text × Bool
write_standard_secrets [] = (b'\n' ∷ b'\n' ∷ [], true)
write_standard_secrets (s ∷ rest) =
    if has_line_break s.key || has_line_break s.value
    then ([], false)
    else line_before s.key s.value (write_standard_secrets rest)
