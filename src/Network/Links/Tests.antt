-- ===== src/Network/Links/Tests.antt =====
-- A card, a bridge, and a link that is gone.
use tailscale_os.Base.{◌≡◌, ◌==◌, refl, true, none, some, [], ◌∷◌, str_eq, insert, if◌then◌else◌}
use tailscale_os.Network.Links.{
  LinkMessage, zero_spec, Kernel, EthClient, answered, unsupported, Store, reconcile_links,
}
use tailscale_os.Network.Links.Swept.{has_status, is_synced, status-reconcile_links}
use tailscale_os.Network.Links.Kinds.{Pass, run_passes, is_ether}

abbrev eth_client : EthClient
eth_client = record {
  link_state = λ index. answered (index == 2);
  link_info = λ index. answered 3;
  link_mode = λ index. unsupported;
}

abbrev kernel : Kernel
kernel = record {
  link_ether = 1;
  link_loopbck = 772;
  port_other = 255;
  duplex_unknown = 255;
  eth_client = some eth_client;
  set_err = λ l. if str_eq l.name "eth1" then some "no such device" else none;
  device_info = λ name. none;
  modify_err = λ name. none;
  destroy_err = λ id. none;
  arrange = λ ids. ids;
}

abbrev card : LinkMessage
card = record {
  name = "eth0";
  index = 2;
  link_type = 1;
  flags = 4099;
  address = 82 ∷ 84 ∷ 0 ∷ 18 ∷ 52 ∷ 86 ∷ [];
  broadcast = 255 ∷ 255 ∷ 255 ∷ 255 ∷ 255 ∷ 255 ∷ [];
  parent = 0;
  queue_disc = "fq_codel";
  mtu = 1500;
  operational_state = 6;
}

abbrev bridge : LinkMessage
bridge = record card { name = "br0"; index = 3; queue_disc = "noqueue" }

-- A link that the kernel does not bring up.
abbrev broken : LinkMessage
broken = record card { name = "eth1"; index = 4 }

abbrev before : Store
before = ("wlan0", zero_spec) ∷ ("eth1", zero_spec) ∷ []

status-reconcile_links_example :
    let r = reconcile_links kernel none none (card ∷ broken ∷ bridge ∷ []) before in
    (has_status "eth1" r.1 ≡ is_synced kernel "eth1" (card ∷ broken ∷ bridge ∷ [])) × (r.0 ≡ none)
status-reconcile_links_example =
    status-reconcile_links kernel (λ id. refl) (λ ids id. refl) (card ∷ broken ∷ bridge ∷ []) before
      "eth1"

abbrev pass : Pass
pass = record { list_err = none; links_err = none; links = card ∷ bridge ∷ [] }

bridge_is_ether : is_ether kernel "br0" (run_passes kernel (pass ∷ []) []) ≡ true
unfolding run_passes reconcile_links insert
bridge_is_ether = refl
