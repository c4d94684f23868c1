-- ===== src/Network/Links.antt =====
-- controllers/network/link_status.go: the resources that mirror the links of the kernel; and `Physical` of
-- resources/network/link_status.go. The kernel, ethtool and nethelpers are parameters.
pub mod Swept
pub mod Kinds
mod Tests
use tailscale_os.Base.{
  ℕ, ◌==◌, Bool, true, false, not, ◌&&◌, ◌||◌, Option, none, some, List, [], ◌∷◌, String, str_eq,
  join, keep, lookup, insert, delete, if◌then◌else◌,
}

-- What the controller reads of `rtnetlink.LinkMessage`.
pub record LinkMessage : Type 0 where
  pub name : String
  pub index : ℕ
  pub link_type : ℕ
  pub flags : ℕ
  pub address : List ℕ
  pub broadcast : List ℕ
  pub parent : ℕ
  pub queue_disc : String
  pub mtu : ℕ
  pub operational_state : ℕ

-- `LinkStatusSpec`: the fields that the controller writes, and the kind, which it does not write.
pub record LinkStatusSpec : Type 0 where
  pub index : ℕ
  pub hardware_addr : List ℕ
  pub broadcast_addr : List ℕ
  pub link_index : ℕ
  pub flags : ℕ
  pub link_type : ℕ
  pub queue_disc : String
  pub mtu : ℕ
  pub operational_state : ℕ
  pub link_state : Bool
  pub port : ℕ
  pub speed_megabits : ℕ
  pub duplex : ℕ
  pub bus_path : String
  pub driver : String
  pub pci_id : String
  pub kind : String

-- The value of a resource that is new.
abbrev pub zero_spec : LinkStatusSpec
zero_spec = record {
  index = 0;
  hardware_addr = [];
  broadcast_addr = [];
  link_index = 0;
  flags = 0;
  link_type = 0;
  queue_disc = "";
  mtu = 0;
  operational_state = 0;
  link_state = false;
  port = 0;
  speed_megabits = 0;
  duplex = 0;
  bus_path = "";
  driver = "";
  pci_id = "";
  kind = "";
}

-- The answer of a query of ethtool, where `unsupported` is `os.ErrNotExist`.
pub data Answer (A : Type 0) : Type 0 where
  answered : A → Answer A
  unsupported : Answer A
  refused : String → Answer A

pub record LinkMode : Type 0 where
  pub speed_megabits : ℕ
  pub duplex : ℕ

-- The client of ethtool, which is asked by the index of a link.
pub record EthClient : Type 0 where
  pub link_state : ℕ → Answer Bool
  pub link_info : ℕ → Answer ℕ
  pub link_mode : ℕ → Answer LinkMode

pub record DeviceInfo : Type 0 where
  pub bus_path : String
  pub driver : String
  pub pci_id : String

-- What a pass meets. The errors are those of `Link.Set`, of `WriterModify` and of `Destroy`; `arrange` is
-- the order in which Go goes through a map.
pub record Kernel : Type 0 where
  pub link_ether : ℕ
  pub link_loopbck : ℕ
  pub port_other : ℕ
  pub duplex_unknown : ℕ
  pub eth_client : Option EthClient
  pub set_err : LinkMessage → Option String
  pub device_info : String → Option DeviceInfo
  pub modify_err : String → Option String
  pub destroy_err : String → Option String
  pub arrange : List String → List String

-- `ethState`, `ethInfo` and `ethMode`.
pub record EthData : Type 0 where
  pub state : Option Bool
  pub info : Option ℕ
  pub mode : Option LinkMode

abbrev with_mode : Bool → ℕ → Answer LinkMode → EthData
with_mode s p (answered m) = record { state = some s; info = some p; mode = some m }
with_mode s p _ = record { state = some s; info = some p; mode = none }

abbrev with_info : Bool → Answer ℕ → Answer LinkMode → EthData
with_info s (answered p) a = with_mode s p a
with_info s _ a = record { state = some s; info = none; mode = none }

abbrev with_state : Answer Bool → Answer ℕ → Answer LinkMode → EthData
with_state (answered s) i a = with_info s i a
with_state _ i a = record { state = none; info = none; mode = none }

-- The three queries, each skipped if the one before it failed.
unfoldable pub query_ethtool : Option EthClient → ℕ → EthData
query_ethtool none index = record { state = none; info = none; mode = none }
query_ethtool (some c) index =
    with_state (c.link_state index) (c.link_info index) (c.link_mode index)

abbrev pub or_else : {A : Type 0} → A → Option A → A
or_else a none = a
or_else a (some b) = b

abbrev pub with_device : Option DeviceInfo → LinkStatusSpec → LinkStatusSpec
with_device none s = s
with_device (some d) s = record s { bus_path = d.bus_path; driver = d.driver; pci_id = d.pci_id }

-- The update of a resource by `syncLink`.
unfoldable pub update_status : Kernel → LinkMessage → LinkStatusSpec → LinkStatusSpec
unfolding query_ethtool
update_status k l s =
    let eth : EthData = query_ethtool k.eth_client l.index in
    let mode : LinkMode =
      or_else (record { speed_megabits = 0; duplex = k.duplex_unknown }) eth.mode in
    with_device (k.device_info l.name) (record s {
      index = l.index;
      hardware_addr = l.address;
      broadcast_addr = l.broadcast;
      link_index = l.parent;
      flags = l.flags;
      link_type = l.link_type;
      queue_disc = l.queue_disc;
      mtu = l.mtu;
      operational_state = l.operational_state;
      link_state = or_else false eth.state;
      port = or_else k.port_other eth.info;
      speed_megabits = mode.speed_megabits;
      duplex = mode.duplex;
    })

-- The resources by their identifier, and the links that were set up.
abbrev pub Store : Type 0
Store = List (String × LinkStatusSpec)

abbrev pub brings_up : Kernel → LinkMessage → Bool
brings_up k l = l.link_type == k.link_ether || l.link_type == k.link_loopbck

-- The error of `syncLink`, whose two calls may fail.
unfoldable pub sync_err : Kernel → LinkMessage → Option String
sync_err k l = elim (if brings_up k l then k.set_err l else none) [
  | some e ↦ some e
  | none ↦ k.modify_err l.name
]

abbrev pub write_status : Kernel → LinkMessage → Option String → Store → Store
write_status k l none store =
    insert l.name (update_status k l (or_else zero_spec (lookup l.name store))) store
write_status k l (some e) store = store

-- `syncLink`
unfoldable pub sync_link : Kernel → LinkMessage → Store → Option String × Store
unfolding sync_err update_status
sync_link k l store = (sync_err k l, write_status k l (sync_err k l) store)

abbrev pub remaining : String → Option String → List String → List String
remaining name none ids = keep (λ id. not (str_eq id name)) ids
remaining name (some e) ids = ids

-- The loop over the links. A link that fails is left out with a warning, and its resource stays among
-- those to destroy.
unfoldable pub sync_links : Kernel → List LinkMessage → Store → List String → Store × List String
unfolding sync_link
sync_links k [] store ids = (store, ids)
sync_links k (l ∷ ls) store ids =
    let r : Option String × Store = sync_link k l store in
    sync_links k ls r.1 (remaining l.name r.0 ids)

-- The loop over the resources to destroy, which ends with the first error.
unfoldable pub destroy_all : Kernel → List String → Store → Option String × Store
destroy_all k [] store = (none, store)
destroy_all k (id ∷ ids) store =
    let rest = destroy_all k ids (delete id store) in
    elim (k.destroy_err id) [
      | some e ↦ (some (join "error deleting link status: " e), store)
      | none ↦ rest
    ]

abbrev pub ids_of : Store → List String
ids_of [] = []
ids_of ((id, s) ∷ rest) = id ∷ ids_of rest

-- `reconcile`, after its two lists succeeded.
unfoldable pub reconcile_listed : Kernel → List LinkMessage → Store → Option String × Store
unfolding sync_links destroy_all
reconcile_listed k links store =
    let r : Store × List String = sync_links k links store (ids_of store) in
    destroy_all k (k.arrange r.1) r.0

-- `reconcile`; the errors are those of the list of resources and of the list of links.
unfoldable pub reconcile_links :
    Kernel → Option String → Option String → List LinkMessage → Store → Option String × Store
unfolding reconcile_listed
reconcile_links k (some e) links_err links store =
    (some (join "error listing resources: " e), store)
reconcile_links k none (some e) links store = (some e, store)
reconcile_links k none none links store = reconcile_listed k links store

-- `Physical`
abbrev pub is_physical : Kernel → LinkStatusSpec → Bool
is_physical k s = s.link_type == k.link_ether && str_eq s.kind ""
