-- ===== src/Network/Lease.antt =====
-- controllers/network/dhcp4.go: `applyLease`, which writes the resources of a lease, and `destroy`.
pub mod Held
mod Tests
use tailscale_os.Base.{
  ℕ, ◌==◌, Bool, true, false, not, ◌&&◌, ◌||◌, Option, none, some, List, [], ◌∷◌, String, join,
  lookup, insert, delete, if◌then◌else◌,
}
use tailscale_os.Network.{Ip, Prefix}
use tailscale_os.Network.Address.{AddressSpec}
use tailscale_os.Network.Route.{RouteSpec}
use tailscale_os.Network.Routing.{Net, no_prefix, normalize, route_id}
use tailscale_os.Network.Dhcp.{Name, search_domains}

-- What the code reads of the acknowledgement of a lease: the address, the bits of its mask where it is one,
-- and options 3, 6, 119 and 15.
pub record Ack : Type 0 where
  pub your_ip : Ip
  pub mask_bits : Option ℕ
  pub routers : List Ip
  pub dns : List Ip
  pub labels : List Name
  pub domain_name : Name

pub record ResolverSpec : Type 0 where
  pub name_servers : List Ip
  pub search_domains : List Name

-- The resources that leases write.
pub record Resources : Type 0 where
  pub addresses : List (String × AddressSpec)
  pub routes : List (String × RouteSpec)
  pub resolver : Option ResolverSpec

pub data Target : Type 0 where
  address_spec route_spec : String → Target
  resolver_spec : Target

-- A write with its error, and what follows it.
abbrev pub then_write :
    Option String → String → Resources → Option String × Resources → Option String × Resources
then_write none what s rest = rest
then_write (some e) what s rest = (some (join what e), s)

abbrev pub address_id : String → String
address_id link = join "dhcp4/" link

abbrev prefix_with : Ip → Option ℕ → Prefix
prefix_with ip none = no_prefix
prefix_with ip (some bits) = record { addr = ip; bits = bits }

-- The prefix of the lease: the zero one where the mask cannot be converted.
abbrev pub leased : Ack → Prefix
leased ack = prefix_with ack.your_ip ack.mask_bits

abbrev pub is_filled : {A : Type 0} → List A → Bool
is_filled [] = false
is_filled (_ ∷ _) = true

abbrev pub resolver_of : Ack → ResolverSpec
resolver_of ack = record {
  name_servers = ack.dns;
  search_domains = search_domains ack.labels ack.domain_name;
}

abbrev pub names_any : Ack → Bool
names_any ack = is_filled ack.dns || is_filled (search_domains ack.labels ack.domain_name)

module _ (n : Net) where
  abbrev pub address_of : String → Ack → AddressSpec
  address_of link ack = record {
    address = leased ack;
    link_name = link;
    family = n.inet4;
    scope = n.scope_global;
    flags = n.address_permanent;
  }

  abbrev pub gateway_route : String → Prefix → Ip → RouteSpec
  gateway_route link addr gw = record {
    family = n.inet4;
    destination = no_prefix;
    source = addr.addr;
    gateway = gw;
    out_link_name = link;
    table = n.table_main;
    priority = 0;
    scope = n.scope_global;
    route_type = n.type_unicast;
    flags = 0;
    protocol = n.protocol_boot;
    mtu = 0;
  }

  abbrev pub interface_route : String → Prefix → Ip → RouteSpec
  interface_route link addr gw = record (gateway_route link addr gw) {
    destination = record { addr = gw; bits = n.bit_len gw };
    gateway = [];
    scope = n.scope_link;
  }

  -- The loop over the routers.
  unfoldable pub routes_of : String → Prefix → List Ip → List RouteSpec
  routes_of link addr [] = []
  routes_of link addr (gw ∷ gws) =
      let rest = routes_of link addr gws in
      let more = if n.contains addr gw then rest else interface_route link addr gw ∷ rest in
      gateway_route link addr gw ∷ more

  abbrev pub id_of : RouteSpec → String
  id_of r = route_id n r.table r.family r.destination r.gateway r.priority r.out_link_name

  module _ (modify_err : Target → Option String) where
    -- The loop over the routes.
    unfoldable pub write_routes : List RouteSpec → Resources → Option String × Resources
    unfolding normalize route_id
    write_routes [] s = (none, s)
    write_routes (r ∷ rs) s =
        let q : RouteSpec = (normalize n r).0 in
        let rest = write_routes rs (record s { routes = insert (id_of q) q s.routes }) in
        then_write (modify_err (route_spec (id_of q))) "error applying spec: " s rest

    abbrev pub write_resolver : Ack → Option String × Resources → Option String × Resources
    write_resolver ack (some e, s) = (some e, s)
    write_resolver ack (none, s) =
        let done = record s { resolver = some (resolver_of ack) } in
        if names_any ack
        then then_write (modify_err resolver_spec) "error applying spec: " s (none, done)
        else (none, s)

    -- `applyLease`: its error, and the resources after it.
    unfoldable pub apply_lease : String → Ack → Resources → Option String × Resources
    unfolding routes_of write_routes search_domains
    apply_lease link ack s =
        let id = address_id link in
        let addressed = record s { addresses = insert id (address_of link ack) s.addresses } in
        then_write (modify_err (address_spec id)) "" s
          (write_resolver ack (write_routes (routes_of link (leased ack) ack.routers) addressed))

-- `destroy`, where it succeeds.
unfoldable pub destroy_lease : String → Resources → Resources
destroy_lease link s = record s { addresses = delete (address_id link) s.addresses }
