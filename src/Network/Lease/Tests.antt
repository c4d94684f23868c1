-- ===== src/Network/Lease/Tests.antt =====
-- A lease with a router.
use tailscale_os.Base.{
  ◌==◌, ◌≡◌, refl, succeeds, true, false, none, some, [], ◌∷◌, String, join, if◌then◌else◌,
}
use tailscale_os.Network.{Ip, Phase, Done, running, resolve_link_name}
use tailscale_os.Network.Address as A
use tailscale_os.Network.Address.{AddressSpec}
use tailscale_os.Network.Pass.{Item, PassErrors, pass}
use tailscale_os.Network.Pass.Guarded.{is_finalized}
use tailscale_os.Network.Lease.Held.{Destroy, end_lease, end_lease_refused}
use tailscale_os.Network.Route.{RouteSpec}
use tailscale_os.Network.Routing.{Net, normalize, clear, clear_destination, zero4}
use tailscale_os.Network.Lease.{Ack, Resources, apply_lease, gateway_route, address_of}

abbrev text_of : Ip → String
text_of [] = ""
text_of (a ∷ bs) = join (if a == 10 then "10." else "x.") (text_of bs)

abbrev net : Net
net = record {
  inet4 = 2;
  inet6 = 10;
  scope_global = 0;
  scope_link = 253;
  scope_host = 254;
  table_main = 254;
  type_unicast = 1;
  protocol_boot = 3;
  address_permanent = 128;
  is_loopback = λ a. false;
  contains = λ p a. true;
  bit_len = λ a. 32;
  addr_text = text_of;
  prefix_text = λ p. text_of p.addr;
  table_text = λ t. "local";
  family_text = λ f. "inet4";
  number_text = λ k. if k == 0 then "0" else "1024";
}

abbrev to_zero : RouteSpec
to_zero = gateway_route net "eth0" (record { addr = zero4; bits = 0 }) zero4

zero_is_cleared : (normalize net to_zero).0.gateway ≡ []
unfolding normalize clear clear_destination
zero_is_cleared = refl

abbrev ack : Ack
ack = record {
  your_ip = 10 ∷ 0 ∷ 0 ∷ 7 ∷ [];
  mask_bits = some 24;
  routers = (10 ∷ 0 ∷ 0 ∷ 1 ∷ []) ∷ [];
  dns = (10 ∷ 0 ∷ 0 ∷ 1 ∷ []) ∷ [];
  labels = [];
  domain_name = [];
}

abbrev nothing : Resources
nothing = record { addresses = []; routes = []; resolver = none }

abbrev first : Resources
first = (apply_lease net (λ t. none) "eth0" ack nothing).1

abbrev no_errors : PassErrors
no_errors = record {
  list_err = none;
  finalizer_err = λ id. none;
  links_err = none;
  kernel_err = none;
}

-- A pass that adds the address of the lease on eth0.
abbrev leased_on_eth0 : Item AddressSpec
leased_on_eth0 = record { id = "dhcp4/eth0"; phase = running; spec = address_of net "eth0" ack }

abbrev sync_one : Phase → AddressSpec → Done A.Op
sync_one ph s =
    A.sync_address (λ a. true) (λ p. (none, [])) (λ a b. true) (λ f. f)
      (record { remove_err = λ a. none; add_err = λ a. none; release_err = none })
      (record { name = "eth0"; index = 2 } ∷ []) [] ph s

abbrev strict : Destroy
strict id true = some "resource has pending finalizers"
strict id false = none

end_lease_refused_example :
    let calls = (pass no_errors sync_one (leased_on_eth0 ∷ [])).0 in
    let r = end_lease strict (λ id. is_finalized id calls) "eth0" first in
    (succeeds r.0 ≡ false) × (r.1 ≡ first)
unfolding pass A.sync_address resolve_link_name
end_lease_refused_example =
    end_lease_refused strict no_errors sync_one [] [] leased_on_eth0 "eth0" first (λ id. refl) refl
      refl refl
