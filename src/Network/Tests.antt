-- ===== src/Network/Tests.antt =====
-- A default route and an address that the kernel has in another form, and DHCP on one link.
use tailscale_os.Base.{
  ℕ, ◌+◌, ◌*◌, ◌/◌, ◌==◌, ◌≡◌, ◌&&◌, refl, true, false, Bool, none, some, Option, [], ◌∷◌, List,
  String,
}
use tailscale_os.Network.{Ip, Prefix, Link, running, resolve_link_name}
use tailscale_os.Network.Route as R
use tailscale_os.Network.Address as A
use tailscale_os.Network.Dhcp as D
use tailscale_os.Network.Dhcp.Session.{run_client, started_by, failed_request_is_final}
use tailscale_os.Network.Route.{
  RouteSpec, RouteMessage, sync_route, route_message, matches, current, removes, adds,
}
use tailscale_os.Network.Route.Settled.{sync_route-plan}
use tailscale_os.Network.Address.Settled.{sync}

abbrev same_ip : Ip → Ip → Bool
same_ip [] [] = true
same_ip (a ∷ as') (b ∷ bs) = a == b && same_ip as' bs
same_ip _ _ = false

abbrev links : List Link
links = record { name = "lo"; index = 1 } ∷ record { name = "eth0"; index = 2 } ∷ []

abbrev gateway : Ip
gateway = 10 ∷ 0 ∷ 0 ∷ 1 ∷ []

abbrev default_route : RouteSpec
default_route = record {
  family = 2;
  destination = record { addr = []; bits = 0 };
  source = [];
  gateway = gateway;
  out_link_name = "eth0";
  table = 254;
  priority = 1024;
  scope = 0;
  route_type = 1;
  flags = 0;
  protocol = 16;
  mtu = 0;
}

-- The route as the kernel reads it back, with this protocol.
abbrev kernel_route : ℕ → RouteMessage
kernel_route protocol = record {
  family = 2;
  dst_length = 0;
  header_table = 254;
  protocol = protocol;
  scope = 0;
  route_type = 1;
  flags = 0;
  dst = [];
  src = [];
  gateway = gateway;
  priority = 1024;
  table = 254;
  out_iface = 2;
  metrics = none;
}

abbrev willing : R.Answers
willing = record { remove_err = λ _. none; add_err = λ _. none; release_err = none }

sync_route-plan_example :
    sync_route same_ip (◌==◌) 10 willing links (kernel_route 3 ∷ []) running default_route
    ≡ (removes (kernel_route 3) ∷ adds (route_message same_ip (◌==◌) 10 default_route 2) ∷ [], none)
unfolding resolve_link_name matches current
sync_route-plan_example =
    sync_route-plan same_ip (◌==◌) 10 willing links (kernel_route 3 ∷ []) default_route
      (record { removal = λ m. refl; addition = λ m. refl }) refl

abbrev address : A.AddressSpec
address = record {
  address = record { addr = 10 ∷ 0 ∷ 0 ∷ 5 ∷ []; bits = 24 };
  link_name = "eth0";
  family = 2;
  scope = 0;
  flags = 128;
}

abbrev is4 : Ip → Bool
is4 ip = true

abbrev ip_net : Prefix → Option Ip × Ip
ip_net p = (some p.addr, 255 ∷ 255 ∷ 255 ∷ 0 ∷ [])

-- All flags but the lowest one, which the kernel sets.
abbrev managed : ℕ → ℕ
managed f = 2 * (f / 2)

abbrev read_back : A.AddressMessage → A.AddressMessage
read_back m = record m { flags = 1 + 2 * (m.flags / 2) }

-- The address with other flags.
abbrev old_address : A.AddressMessage
old_address = record {
  family = 2;
  prefix_length = 24;
  flags = 0;
  scope = 0;
  index = 2;
  address = 10 ∷ 0 ∷ 0 ∷ 5 ∷ [];
  local_address = 10 ∷ 0 ∷ 0 ∷ 5 ∷ [];
  broadcast = none;
  attr_flags = 0;
}

abbrev obliging : A.Answers
obliging = record { remove_err = λ _. none; add_err = λ _. none; release_err = none }

abbrev on_one_link : A.AddressMessage → A.AddressMessage → Bool
on_one_link a b = a.index == b.index

abbrev sync_it : List A.AddressMessage → List A.Op × Option String
sync_it addrs = sync is4 ip_net same_ip managed obliging links addrs running address

-- A label with a line break, and one without.
abbrev labels : List D.Name
labels = (97 ∷ 10 ∷ []) ∷ (98 ∷ []) ∷ []

abbrev renewed : D.Round
renewed = record {
  request_fails = false;
  done_first = false;
  renews = true;
  keeps_lease = false;
  rebinds = false;
  done_second = false;
}

-- A link whose DHCP server does not answer.
abbrev eth0 : D.LinkStatus
eth0 = record { id = "eth0"; physical = true }

failed_request_is_final_example :
    ((run_client none false (record renewed { request_fails = true } ∷ renewed ∷ [])).1
      ≡ D.returned true)
    × (D.has "eth0" (started_by ((eth0 ∷ []) ∷ (eth0 ∷ []) ∷ []) (D.reconcile (eth0 ∷ []) []))
        ≡ false)
unfolding D.listed
failed_request_is_final_example =
    failed_request_is_final "eth0" (eth0 ∷ []) [] ((eth0 ∷ []) ∷ (eth0 ∷ []) ∷ []) false
      (record renewed { request_fails = true }) (renewed ∷ []) refl refl (refl, (refl, tt))
