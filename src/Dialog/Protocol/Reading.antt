-- ===== src/Dialog/Protocol/Reading.antt =====
-- internal/nmauthdialog/dialog.go: `readProtocolLine` and `readVPNDetails` on what is left of stdin.
use network_manager_vpn_plug.Prelude.{
  ℕ, zero, suc, ◌+◌, ◌*◌, Bool, true, false, [], ◌∷◌, ltb, ◌==◌, if◌then◌else◌, Text, Result, ok,
  err,
}
use network_manager_vpn_plug.Go.Strings.{mem_text}
use network_manager_vpn_plug.Dialog.Protocol.{
  VpnDetails, ProtocolError, missing_done, line_too_long, line_has_nul, too_many_lines,
  ProtocolParser, new_parser, consume,
}

-- The bytes of a code point in UTF-8, and those of a text.
abbrev rune_len : ℕ → ℕ
rune_len c = if ltb c 0x80 then 1 else if ltb c 0x800 then 2 else if ltb c 0x10000 then 3 else 4

unfoldable pub byte_length : Text → ℕ
byte_length [] = 0
byte_length (c ∷ s) = rune_len c + byte_length s

-- One `\r` at the end of a line is dropped.
unfoldable pub trim_return : Text → Text
trim_return [] = []
trim_return (c ∷ []) = if c == b'\r' then [] else c ∷ []
trim_return (c ∷ d ∷ s) = c ∷ trim_return (d ∷ s)

-- The text up to the next `\n`, or to the end, and what is behind it, with whether there is a `\n`.
unfoldable pub split_line : Text → Text × Bool × Text
split_line [] = ([], false, [])
split_line (c ∷ s) =
    let (line, ended, rest) = split_line s in
    if c == b'\n' then ([], true, s) else (c ∷ line, ended, rest)

abbrev pub max_protocol_line_len : ℕ
max_protocol_line_len = 512 * 1024

abbrev pub max_protocol_lines : ℕ
max_protocol_lines = 4096

-- `bufio.Reader.ReadLine` drops the `\r` of a `\r\n`, and `readProtocolLine` one more at the end.
abbrev pub read_line : Bool → Text → Text
read_line true line = trim_return line
read_line false line = line

unfoldable pub read_protocol_line : Text → Result ProtocolError (Text × Text)
unfolding split_line trim_return byte_length mem_text
read_protocol_line [] = err missing_done
read_protocol_line (c ∷ s) =
    let (raw, ended, rest) = split_line (c ∷ s) in
    let line = read_line ended raw in
    if ltb max_protocol_line_len (byte_length line)
    then err line_too_long
    else if mem_text 0 line
    then err line_has_nul
    else ok (trim_return line, rest)

abbrev done_or : ProtocolParser → Result ProtocolError VpnDetails → Result ProtocolError VpnDetails
done_or p later = if p.done then ok p.details else later

-- The loop of `readVPNDetails`, with the lines that it may still read.
unfoldable pub read_lines : ℕ → Text → ProtocolParser → Result ProtocolError VpnDetails
unfolding read_protocol_line consume
read_lines zero input p = err too_many_lines
read_lines (suc lines) input p = elim (read_protocol_line input) [
  | err e ↦ err e
  | ok (line, rest) ↦ elim (consume line p) [
    | err e ↦ err e
    | ok q ↦ (let later = read_lines lines rest q in if q.done then ok q.details else later)
  ]
]

unfoldable pub read_vpn_details : Text → Result ProtocolError VpnDetails
unfolding read_lines
read_vpn_details input = read_lines max_protocol_lines input new_parser
