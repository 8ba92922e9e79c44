-- ===== src/Config/Gateway.antt =====
-- internal/nmplugin/config.go, `gatewayVariantForAddr`: the bytes of an address and its variant.
use network_manager_vpn_plug.Prelude.{
  ℕ, zero, suc, ◌/◌, ◌%◌, ◌^◌, ◌<◌, false, ◌&&◌, List, [], ◌∷◌, ◌≡◌, ◌≢◌, refl, arith, Option, some,
  ◌==◌, Bool-cases, inl, inr, Text, All, subst, sym,
}
use network_manager_vpn_plug.Config.{
  Addr, invalid, ip4, ip6, GatewayVariant, uint32, byte_array, behind_zeros, mapped_address, unmap,
  is_unspecified, big_endian, variant_of_unmapped, gateway_variant_for_addr,
}

abbrev pub IsByte : ℕ → Type 0
IsByte b = b < 256

-- The bytes of an address are bytes.
abbrev pub IsAddr : Addr → Type 0
IsAddr invalid = Unit
IsAddr (ip4 a b c d) = IsByte a × IsByte b × IsByte c × IsByte d
IsAddr (ip6 zone bytes) = All IsByte bytes

-- The four bytes of a number, the highest first.
abbrev pub bytes_of : ℕ → Addr
bytes_of n = ip4 (n / 2 ^ 24) (n / 2 ^ 16 % 256) (n / 2 ^ 8 % 256) (n % 256)

bytes_of-big_endian :
    (a b c d : ℕ)
    → IsByte a
    → IsByte b
    → IsByte c
    → IsByte d
    → (big_endian a b c d < 2 ^ 32) × (bytes_of (big_endian a b c d) ≡ ip4 a b c d)
unfolding big_endian
bytes_of-big_endian a b c d ha hb hc hd =
    let n = big_endian a b c d in
    let e₁ : n / 2 ^ 24 ≡ a = omega arith in
    let e₂ : n / 2 ^ 16 % 256 ≡ b = omega arith in
    let e₃ : n / 2 ^ 8 % 256 ≡ c = omega arith in
    let e₄ : n % 256 ≡ d = omega arith in (omega arith, cc)

behind_zeros-All :
    (n : ℕ) (bytes : List ℕ) {rest : List ℕ}
    → All IsByte bytes
    → behind_zeros n bytes ≡ some rest
    → All IsByte rest
unfolding behind_zeros
behind_zeros-All zero bytes {rest} h e = let r : bytes ≡ rest = cc in subst (All IsByte) r h
behind_zeros-All (suc n) [] h e = cc
behind_zeros-All (suc n) (b ∷ bytes) (hb, hs) e = behind_zeros-All n bytes hs (ground arith)

mapped_address-IsAddr :
    (a : Addr) (o : Option (List ℕ))
    → IsAddr a
    → ((rest : List ℕ) → o ≡ some rest → All IsByte rest)
    → IsAddr (mapped_address a o)
mapped_address-IsAddr a (some (x ∷ y ∷ b ∷ c ∷ d ∷ e ∷ [])) h k =
    let (_, (_, (hb, (hc, (hd, (he, _)))))) = k (x ∷ y ∷ b ∷ c ∷ d ∷ e ∷ []) refl in
    elim (Bool-cases (x == 255 && y == 255)) [ inl e ↦ rw e (hb, hc, hd, he) | inr e ↦ rw e h ]
mapped_address-IsAddr a _ h k = h

unmap-IsAddr : (a : Addr) → IsAddr a → IsAddr (unmap a)
unfolding unmap
unmap-IsAddr (ip6 zone bytes) h =
    mapped_address-IsAddr (ip6 zone bytes) (behind_zeros 10 bytes) h
      (λ rest e. behind_zeros-All 10 bytes h e)
unmap-IsAddr invalid h = h
unmap-IsAddr (ip4 a b c d) h = h

-- The address that a variant stands for.
abbrev pub IsVariantOf : Addr → GatewayVariant → Type 0
IsVariantOf a (uint32 n) = (n < 2 ^ 32) × (n ≢ 0) × (a ≡ bytes_of n)
IsVariantOf a (byte_array bytes) = (zone : Text) × (a ≡ ip6 zone bytes)

big_endian-ne-zero : (a b c d : ℕ) → is_unspecified (ip4 a b c d) ≡ false → big_endian a b c d ≢ 0
unfolding is_unspecified big_endian
big_endian-ne-zero a b c d h = ground arith

variant_of_unmapped_lem :
    (a : Addr) (g : GatewayVariant) → IsAddr a → variant_of_unmapped a ≡ some g → IsVariantOf a g
unfolding variant_of_unmapped
variant_of_unmapped_lem invalid g h e = cc
variant_of_unmapped_lem (ip4 a b c d) (uint32 n) (ha, hb, hc, hd) e =
    elim (Bool-cases (is_unspecified (ip4 a b c d))) [
      | inl u ↦ cc
      | inr u ↦
          let r : big_endian a b c d ≡ n = ground arith in
          let (below, bytes) = bytes_of-big_endian a b c d ha hb hc hd in
          subst (λ m. IsVariantOf (ip4 a b c d) (uint32 m)) r
            (below, big_endian-ne-zero a b c d u, sym bytes)
    ]
variant_of_unmapped_lem (ip4 a b c d) (byte_array bytes) h e = ground arith
variant_of_unmapped_lem (ip6 zone bytes) (uint32 n) h e = ground arith
variant_of_unmapped_lem (ip6 zone bytes) (byte_array other) h e = (zone, ground arith)

-- A gateway's variant gives its address back: a uint32 is in range, is not zero, and has the four bytes
-- of the address, IPv4 mapped into IPv6 included, in network order; any other variant has the sixteen
-- bytes of the address.
pub gateway_variant_for_addr_lem :
    (a : Addr) (g : GatewayVariant)
    → IsAddr a
    → gateway_variant_for_addr a ≡ some g
    → IsVariantOf (unmap a) g
unfolding gateway_variant_for_addr
gateway_variant_for_addr_lem a g h e = variant_of_unmapped_lem (unmap a) g (unmap-IsAddr a h) e

abbrev pub mapped : ℕ → ℕ → ℕ → ℕ → List ℕ
mapped a b c d = 0 ∷ 0 ∷ 0 ∷ 0 ∷ 0 ∷ 0 ∷ 0 ∷ 0 ∷ 0 ∷ 0 ∷ 255 ∷ 255 ∷ a ∷ b ∷ c ∷ d ∷ []

mapped_same :
    (zone : Text) (a b c d : ℕ)
    → gateway_variant_for_addr (ip6 zone (mapped a b c d)) ≡ gateway_variant_for_addr (ip4 a b c d)
unfolding gateway_variant_for_addr
mapped_same zone a b c d = refl
