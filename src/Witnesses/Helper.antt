-- ===== src/Witnesses/Helper.antt =====
-- internal/nmauthdialog: lines that NetworkManager writes, values of a key file and plain secrets.
use network_manager_vpn_plug.Prelude.{
  ◌+◌, ◌*◌, ◌++◌, List, true, false, [], ◌∷◌, some, ◌≡◌, ◌↔◌, refl, bit, length, codes,
}
use network_manager_vpn_plug.Dialog.Keyfile.{
  StandardSecret, escape_keyfile_value, has_line_break, write_keyfile_entry, write_standard_secrets,
}
use network_manager_vpn_plug.Dialog.Keyfile.Escape.{read_value, read_value-escape}
use network_manager_vpn_plug.Dialog.Keyfile.Lines.{
  leading, newlines, newlines-write_keyfile_entry, newlines-write_standard_secrets,
}
use network_manager_vpn_plug.Dialog.Protocol.{consume, new_parser}
use network_manager_vpn_plug.Dialog.Protocol.Invariant.{InOrder, consume-InOrder}

consume-InOrder_example : InOrder (consume (codes "DATA_KEY=user") new_parser)
consume-InOrder_example =
    consume-InOrder (codes "DATA_KEY=user") new_parser
      (record { value_has_key = λ h. h; key_has_target = refl; latest = refl })

read_value-escape_example :
    read_value (escape_keyfile_value (codes " a\\b\n") ++ (b'\n' ∷ codes "x"))
    ≡ some (codes " a\\b\n")
read_value-escape_example = read_value-escape (codes " a\\b\n") (codes "x")

newlines-write_keyfile_entry_example :
    newlines (write_keyfile_entry (codes "setup-key") (codes "a\nb") (codes "Setup key") true true)
    ≡ newlines (codes "setup-key") + 5
newlines-write_keyfile_entry_example =
    newlines-write_keyfile_entry (codes "setup-key") (codes "a\nb") (codes "Setup key") true true

abbrev two_secrets : List StandardSecret
two_secrets =
    record { key = codes "k"; value = codes "v" }
    ∷ record { key = codes "l"; value = codes "a\nb" }
    ∷ []

newlines-write_standard_secrets_example :
    (newlines (write_standard_secrets two_secrets).0
      ≡ 2 * leading two_secrets + 2 * bit (write_standard_secrets two_secrets).1)
    × (((write_standard_secrets two_secrets).1 ≡ true) ↔ (leading two_secrets ≡ length two_secrets))
newlines-write_standard_secrets_example = newlines-write_standard_secrets two_secrets

-- What is written before the error stays.
partial_output : write_standard_secrets two_secrets ≡ (codes "k\nv\n", false)
unfolding write_standard_secrets has_line_break
partial_output = refl
