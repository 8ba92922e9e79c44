-- ===== src/Witnesses/Gateways.antt =====
-- internal/nmplugin/config.go: an IPv4 address that is mapped into IPv6, and a host with two addresses.
use network_manager_vpn_plug.Prelude.{[], ◌∷◌, ◌≡◌, refl, arith, none, some, Option, codes}
use network_manager_vpn_plug.Go.Strings.{trim, trim_space}
use network_manager_vpn_plug.Config.{
  Addr, ip4, ip6, GatewayVariant, uint32, Resolver, no_usable_address, gateway_variant_for_addr,
  network_manager_gateway_host, network_manager_gateway_variant, unmap, usable,
}
use network_manager_vpn_plug.Config.Choice.{First, network_manager_gateway_variant-First}
use network_manager_vpn_plug.Config.Gateway.{IsVariantOf, gateway_variant_for_addr_lem, mapped}

abbrev local_router : Addr
local_router = ip6 [] (mapped 192 168 0 1)

gateway_variant_for_addr_example : IsVariantOf (unmap local_router) (uint32 3_232_235_521)
unfolding gateway_variant_for_addr
gateway_variant_for_addr_example =
    gateway_variant_for_addr_lem local_router (uint32 3_232_235_521)
      (
        omega arith,
        (
          omega arith,
          (
            omega arith,
            (
              omega arith,
              (
                omega arith,
                (
                  omega arith,
                  (
                    omega arith,
                    (
                      omega arith,
                      (
                        omega arith,
                        (
                          omega arith,
                          (
                            omega arith,
                            (
                              omega arith,
                              (omega arith, (omega arith, (omega arith, (omega arith, tt)))),
                            ),
                          ),
                        ),
                      ),
                    ),
                  ),
                ),
              ),
            ),
          ),
        ),
      )
      refl

abbrev resolver : Resolver
resolver = record {
  parse_hostname = λ url. some (codes "netbird.example");
  split_host = λ url. none;
  parse_addr = λ host. none;
  lookup = λ host. some (ip4 0 0 0 0 ∷ ip4 10 0 0 1 ∷ []);
}

network_manager_gateway_variant_example :
    (g : Option GatewayVariant) × First (ip4 0 0 0 0 ∷ ip4 10 0 0 1 ∷ []) g
    × (network_manager_gateway_variant resolver (codes "https://netbird.example")
        ≡ usable
            (no_usable_address
              (network_manager_gateway_host resolver (codes "https://netbird.example")))
            g)
unfolding network_manager_gateway_host trim_space trim
network_manager_gateway_variant_example =
    network_manager_gateway_variant-First resolver (codes "https://netbird.example") refl
      {addrs = ip4 0 0 0 0 ∷ ip4 10 0 0 1 ∷ []} refl refl
