-- ===== src/Config.antt =====
-- internal/nmplugin/config.go: the configuration that NetworkManager is sent when a connection is up.
-- `url.Parse`, `net.SplitHostPort`, `netip.ParseAddr` and the resolver are parameters.
pub mod Gateway
pub mod Choice
use network_manager_vpn_plug.Prelude.{
  ℕ, zero, suc, ◌^◌, Bool, true, false, not, ◌&&◌, List, [], ◌∷◌, ◌++◌, ◌+◌, ◌*◌, ◌==◌, Option,
  none, some, if◌then◌else◌, Text, codes, is_empty, Result, ok, err,
}
use network_manager_vpn_plug.Go.Strings.{trim, trim_space}
use network_manager_vpn_plug.Daemon.{ProfileRef}
use network_manager_vpn_plug.Daemon.Messages.{RpcError}
use network_manager_vpn_plug.Grpc.Calls.{ConfigResponse}
use network_manager_vpn_plug.Settings.Normal.{normalize_interface_name}
use network_manager_vpn_plug.Settings.Parse.{ActivationSettings}

-- `netip.Addr`: no address, four bytes, or a zone and sixteen bytes.
pub data Addr : Type 0 where
  invalid : Addr
  ip4 : ℕ → ℕ → ℕ → ℕ → Addr
  ip6 : Text → List ℕ → Addr

-- The variant of a gateway: a uint32, or sixteen bytes.
pub data GatewayVariant : Type 0 where
  uint32 : ℕ → GatewayVariant
  byte_array : List ℕ → GatewayVariant

-- The bytes behind `n` zeros.
unfoldable pub behind_zeros : ℕ → List ℕ → Option (List ℕ)
behind_zeros zero bytes = some bytes
behind_zeros (suc n) [] = none
behind_zeros (suc n) (b ∷ bytes) = let rest = behind_zeros n bytes in if b == 0 then rest else none

abbrev pub mapped_address : Addr → Option (List ℕ) → Addr
mapped_address a (some (x ∷ y ∷ b ∷ c ∷ d ∷ e ∷ [])) =
    if x == 255 && y == 255 then ip4 b c d e else a
mapped_address a _ = a

-- `Addr.Unmap`: an IPv4 address that is mapped into IPv6 becomes one of four bytes.
unfoldable pub unmap : Addr → Addr
unfolding behind_zeros
unmap (ip6 zone bytes) = mapped_address (ip6 zone bytes) (behind_zeros 10 bytes)
unmap a = a

abbrev all_zero : List ℕ → Bool
all_zero [] = true
all_zero (b ∷ bytes) = b == 0 && all_zero bytes

-- `Addr.IsUnspecified`.
unfoldable pub is_unspecified : Addr → Bool
is_unspecified invalid = false
is_unspecified (ip4 a b c d) = a == 0 && b == 0 && c == 0 && d == 0
is_unspecified (ip6 zone bytes) = is_empty zone && all_zero bytes

-- `binary.BigEndian.Uint32`.
unfoldable pub big_endian : ℕ → ℕ → ℕ → ℕ → ℕ
big_endian a b c d = a * 2 ^ 24 + b * 2 ^ 16 + c * 2 ^ 8 + d

unfoldable pub variant_of_unmapped : Addr → Option GatewayVariant
unfolding is_unspecified big_endian
variant_of_unmapped invalid = none
variant_of_unmapped (ip4 a b c d) =
    if is_unspecified (ip4 a b c d) then none else some (uint32 (big_endian a b c d))
variant_of_unmapped (ip6 zone bytes) =
    if is_unspecified (ip6 zone bytes) then none else some (byte_array bytes)

unfoldable pub gateway_variant_for_addr : Addr → Option GatewayVariant
unfolding unmap variant_of_unmapped
gateway_variant_for_addr a = variant_of_unmapped (unmap a)

-- `url.Parse` followed by `Hostname`, `net.SplitHostPort`, `netip.ParseAddr` and the resolver.
pub record Resolver : Type 0 where
  pub parse_hostname : Text → Option Text
  pub split_host : Text → Option Text
  pub parse_addr : Text → Option Addr
  pub lookup : Text → Option (List Addr)

pub data GatewayError : Type 0 where
  host_required : GatewayError
  unusable_address unresolved no_usable_address : Text → GatewayError

-- A host name that is not blank, without the brackets around it.
abbrev pub named_host : Option Text → Option Text
named_host none = none
named_host (some host) =
    if is_empty (trim_space host) then none else some (trim (trim_space host) (codes "[]"))

abbrev pub or_host : Option Text → Text → Text
or_host none other = other
or_host (some host) other = host

abbrev pub split_or : Text → Option Text → Text
split_or raw_url none = trim raw_url (codes "[]")
split_or raw_url (some host) = trim (trim_space host) (codes "[]")

-- The loop over resolved addresses.
unfoldable pub first_gateway : List Addr → Option GatewayVariant
first_gateway [] = none
first_gateway (a ∷ addrs) =
    let rest = first_gateway addrs in
    elim (gateway_variant_for_addr a) [ some gateway ↦ some gateway | none ↦ rest ]

abbrev pub usable : GatewayError → Option GatewayVariant → Result GatewayError GatewayVariant
usable e none = err e
usable e (some gateway) = ok gateway

abbrev pub resolved : Text → Option (List Addr) → Result GatewayError GatewayVariant
resolved host none = err (unresolved host)
resolved host (some addrs) = usable (no_usable_address host) (first_gateway addrs)

abbrev pub parsed_or :
    Text → Option Addr → Result GatewayError GatewayVariant → Result GatewayError GatewayVariant
parsed_or host none other = other
parsed_or host (some a) other = usable (unusable_address host) (gateway_variant_for_addr a)

module _ (resolver : Resolver) where
  unfoldable pub network_manager_gateway_host : Text → Text
  network_manager_gateway_host raw =
      let raw_url = trim_space raw in
      if is_empty raw_url
      then []
      else or_host (named_host (resolver.parse_hostname raw_url)) (
          or_host (named_host (resolver.parse_hostname (codes "//" ++ raw_url)))
            (split_or raw_url (resolver.split_host raw_url)))

  unfoldable pub network_manager_gateway_variant : Text → Result GatewayError GatewayVariant
  unfolding first_gateway gateway_variant_for_addr network_manager_gateway_host
  network_manager_gateway_variant raw_url =
      let host = network_manager_gateway_host raw_url in
      if is_empty host
      then err host_required
      else parsed_or host (resolver.parse_addr host) (resolved host (resolver.lookup host))

-- `if value == "" { value = other }`.
abbrev pub or_text : Text → Text → Text
or_text [] other = other
or_text (c ∷ s) other = c ∷ s

-- The interface name and the URL, and what the daemon's config adds to them.
unfoldable pub completed_metadata :
    Text → Text → Result RpcError (Option ConfigResponse) → Text × Text
unfolding normalize_interface_name
completed_metadata interface_name gateway_url (ok (some config)) = (
  or_text interface_name (normalize_interface_name config.interface_name),
  or_text (or_text gateway_url (trim_space config.management_url)) (trim_space config.admin_url),
)
completed_metadata interface_name gateway_url _ = (interface_name, gateway_url)

-- The map of `emitNetworkManagerConfig`: `tundev` is left out if no interface is known, and `has-ip4`
-- and `has-ip6` are false.
pub record NetworkManagerConfig : Type 0 where
  pub gateway : GatewayVariant
  pub tundev : Option Text
  pub has_ip4 : Bool
  pub has_ip6 : Bool

abbrev known : Text → Option Text
known [] = none
known (c ∷ s) = some (c ∷ s)

abbrev pub sent :
    Text → Result GatewayError GatewayVariant → Result GatewayError NetworkManagerConfig
sent interface_name (err e) = err e
sent interface_name (ok gateway) =
    ok (record {
      gateway = gateway;
      tundev = known interface_name;
      has_ip4 = false;
      has_ip6 = false;
    })

module _ {W : Type 0}
    (get_config : ProfileRef → W → Result RpcError (Option ConfigResponse) × W) where
  unfoldable pub network_manager_config_metadata :
      ProfileRef → ActivationSettings → W → (Text × Text) × W
  unfolding completed_metadata
  network_manager_config_metadata profile settings w =
      let interface_name = trim_space settings.interface_name in
      let gateway_url =
        or_text (trim_space settings.management_url) (trim_space settings.admin_url) in
      let (answer, v) = get_config profile w in
      if not (is_empty interface_name) && not (is_empty gateway_url)
      then ((interface_name, gateway_url), w)
      else (completed_metadata interface_name gateway_url answer, v)

  -- `emitNetworkManagerConfig` up to `EmitConfig`.
  unfoldable pub network_manager_config :
      Resolver → ProfileRef → ActivationSettings → W → Result GatewayError NetworkManagerConfig × W
  unfolding network_manager_config_metadata network_manager_gateway_variant
  network_manager_config resolver profile settings w =
      let (metadata, v) = network_manager_config_metadata profile settings w in
      (sent metadata.0 (network_manager_gateway_variant resolver metadata.1), v)
