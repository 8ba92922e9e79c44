-- ===== src/Config/Choice.antt =====
-- internal/nmplugin/config.go: which address becomes the gateway, and where its URL comes from.
use network_manager_vpn_plug.Prelude.{
  false, List, [], ◌∷◌, ◌++◌, ◌≡◌, refl, ap, arith, Option, none, some, Option-cases, inl, inr,
  Text, All, is_empty, Result,
}
use network_manager_vpn_plug.Config.{
  Addr, GatewayVariant, Resolver, GatewayError, first_gateway, gateway_variant_for_addr,
  network_manager_gateway_host, network_manager_gateway_variant, usable,
}

abbrev pub IsUnusable : Addr → Type 0
IsUnusable a = gateway_variant_for_addr a ≡ none

-- The first address of a list that can be a gateway, or that there is none.
pub data First : List Addr → Option GatewayVariant → Type 0 where
  nothing : {addrs : List Addr} → All IsUnusable addrs → First addrs none
  at :
      {addrs : List Addr} {g : Option GatewayVariant} (before after : List Addr) (a : Addr)
      (gateway : GatewayVariant)
      → addrs ≡ before ++ a ∷ after
      → All IsUnusable before
      → gateway_variant_for_addr a ≡ some gateway
      → g ≡ some gateway
      → First addrs g

First-cons :
    (a : Addr) (addrs : List Addr) (g : Option GatewayVariant)
    → IsUnusable a
    → First addrs g
    → First (a ∷ addrs) g
First-cons a addrs g u (nothing all) = nothing (u, all)
First-cons a addrs g u (at before after b gateway e all f r) =
    at (a ∷ before) after b gateway (ap (λ t. a ∷ t) e) (u, all) f r

first_gateway-First : (addrs : List Addr) → First addrs (first_gateway addrs)
unfolding first_gateway
first_gateway-First [] = nothing tt
first_gateway-First (a ∷ addrs) = elim (Option-cases (gateway_variant_for_addr a)) [
  | inl e ↦
      rw (e, first_gateway) (First-cons a addrs (first_gateway addrs) e (first_gateway-First addrs))
  | inr (g, e) ↦ rw (e, first_gateway) (at [] addrs a g refl tt e refl)
]

module _ (resolver : Resolver) (raw_url : Text) where
  abbrev host : Text
  host = network_manager_gateway_host resolver raw_url

  module _ (named : is_empty host ≡ false) where
    abbrev variant : Result GatewayError GatewayVariant
    variant = network_manager_gateway_variant resolver raw_url

    -- A URL whose host is no address but is resolved gives the first of the addresses that can be a
    -- gateway; there is an error exactly if none of them can.
    pub network_manager_gateway_variant-First :
        {addrs : List Addr}
        → resolver.parse_addr host ≡ none
        → resolver.lookup host ≡ some addrs
        → (g : Option GatewayVariant) × First addrs g
          × (variant ≡ usable (GatewayError.no_usable_address host) g)
    unfolding network_manager_gateway_variant
    network_manager_gateway_variant-First {addrs} name found =
        (first_gateway addrs, first_gateway-First addrs, ground arith)
