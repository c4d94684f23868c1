-- ===== src/Network/Links/Kinds.antt =====
-- Which links the resources say are physical, and so get a DHCP client.
use tailscale_os.Base.{
  ◌==◌, ◌≡◌, refl, ap, ◌∙◌, Bool, true, false, ◌&&◌, ◌||◌, Option, none, some, List, [], ◌∷◌,
  String, str_eq, lookup, insert, delete, All, join, if◌then◌else◌, arith,
}
use tailscale_os.Network.Dhcp as D
use tailscale_os.Network.Dhcp.{has, wants_dhcp, reconcile}
use tailscale_os.Network.Dhcp.Clients.{asks, has-reconcile}
use tailscale_os.Network.Links.{
  with_device, DeviceInfo, Kernel, LinkMessage, LinkStatusSpec, Store, sync_err, sync_link,
  sync_links, destroy_all, ids_of, update_status, or_else, zero_spec, reconcile_links,
  reconcile_listed, is_physical, write_status, remaining,
}

-- What the DHCP controller reads of the resources.
abbrev pub as_dhcp : Kernel → Store → List D.LinkStatus
as_dhcp k [] = []
as_dhcp k ((id, s) ∷ rest) = record { id = id; physical = is_physical k s } ∷ as_dhcp k rest

-- One pass, with the errors of its lists and the links.
pub record Pass : Type 0 where
  pub list_err : Option String
  pub links_err : Option String
  pub links : List LinkMessage

-- A run of passes, each whether or not the one before it failed.
unfoldable pub run_passes : Kernel → List Pass → Store → Store
run_passes k [] store = store
run_passes k (p ∷ ps) store =
    run_passes k ps (reconcile_links k p.list_err p.links_err p.links store).1

-- Whether a resource of this identifier has the type of an ethernet link.
abbrev pub is_ether : Kernel → String → Store → Bool
is_ether k id [] = false
is_ether k id ((j, s) ∷ rest) = str_eq id j && s.link_type == k.link_ether || is_ether k id rest

abbrev NoKind : String × LinkStatusSpec → Type 0
NoKind e = e.1.kind ≡ ""

kind-with_device : (o : Option DeviceInfo) (s : LinkStatusSpec) → (with_device o s).kind ≡ s.kind
kind-with_device none s = refl
kind-with_device (some d) s = refl

update-NoKind :
    (k : Kernel) (l : LinkMessage) (s : LinkStatusSpec)
    → s.kind ≡ ""
    → (update_status k l s).kind ≡ ""
unfolding update_status
update-NoKind k l s e = simp (kind-with_device, e)

All-if :
    (b : Bool) (xs ys : Store) → All NoKind xs → All NoKind ys → All NoKind (if b then xs else ys)
All-if true xs ys p q = p
All-if false xs ys p q = q

found-NoKind :
    (id : String) (store : Store)
    → All NoKind store
    → (or_else zero_spec (lookup id store)).kind ≡ ""
unfolding lookup
found-NoKind id [] a = refl
found-NoKind id ((j, s) ∷ rest) a = ground (arith, a.0, found-NoKind id rest a.1)

insert-NoKind :
    (id : String) (s : LinkStatusSpec) (store : Store)
    → s.kind ≡ ""
    → All NoKind store
    → All NoKind (insert id s store)
unfolding insert
insert-NoKind id s [] e a = (e, tt)
insert-NoKind id s ((j, t) ∷ rest) e a =
    All-if (str_eq id j) ((j, s) ∷ rest) ((j, t) ∷ insert id s rest) (e, a.1)
      (a.0, insert-NoKind id s rest e a.1)

delete-NoKind : (id : String) (store : Store) → All NoKind store → All NoKind (delete id store)
unfolding delete
delete-NoKind id [] a = tt
delete-NoKind id ((j, t) ∷ rest) a =
    All-if (str_eq id j) (delete id rest) ((j, t) ∷ delete id rest) (delete-NoKind id rest a.1)
      (a.0, delete-NoKind id rest a.1)

write-NoKind :
    (k : Kernel) (l : LinkMessage) (o : Option String) (store : Store)
    → All NoKind store
    → All NoKind (write_status k l o store)
write-NoKind k l none store a =
    let old : LinkStatusSpec = or_else zero_spec (lookup l.name store) in
    insert-NoKind l.name (update_status k l old) store
      (update-NoKind k l old (found-NoKind l.name store a)) a
write-NoKind k l (some e) store a = a

sync-NoKind :
    (k : Kernel) (links : List LinkMessage) (store : Store) (ids : List String)
    → All NoKind store
    → All NoKind (sync_links k links store ids).0
unfolding sync_links sync_link
sync-NoKind k [] store ids a = a
sync-NoKind k (l ∷ ls) store ids a =
    sync-NoKind k ls (write_status k l (sync_err k l) store) (remaining l.name (sync_err k l) ids)
      (write-NoKind k l (sync_err k l) store a)

destroy-NoKind :
    (k : Kernel) (ids : List String) (store : Store)
    → All NoKind store
    → All NoKind (destroy_all k ids store).1
unfolding destroy_all
destroy-NoKind k [] store a = a
destroy-NoKind k (id ∷ ids) store a =
    elim (k.destroy_err id)
      as (λ o.
        All NoKind
          (elim o as (λ x. Option String × Store) [
            | none ↦ destroy_all k ids (delete id store)
            | some e ↦ (some (join "error deleting link status: " e), store)
          ]).1) [
            | none ↦ destroy-NoKind k ids (delete id store) (delete-NoKind id store a)
            | some e ↦ a
          ]

pass-NoKind :
    (k : Kernel) (list_err links_err : Option String) (links : List LinkMessage) (store : Store)
    → All NoKind store
    → All NoKind (reconcile_links k list_err links_err links store).1
unfolding reconcile_links reconcile_listed
pass-NoKind k (some e) links_err links store a = a
pass-NoKind k none (some e) links store a = a
pass-NoKind k none none links store a =
    let r : Store × List String = sync_links k links store (ids_of store) in
    destroy-NoKind k (k.arrange r.1) r.0 (sync-NoKind k links store (ids_of store) a)

run-NoKind :
    (k : Kernel) (passes : List Pass) (store : Store)
    → All NoKind store
    → All NoKind (run_passes k passes store)
unfolding run_passes
run-NoKind k [] store a = a
run-NoKind k (p ∷ ps) store a =
    run-NoKind k ps (reconcile_links k p.list_err p.links_err p.links store).1
      (pass-NoKind k p.list_err p.links_err p.links store a)

asks-is_ether :
    (k : Kernel) (id : String) (store : Store)
    → All NoKind store
    → asks id (as_dhcp k store) ≡ is_ether k id store
asks-is_ether k id [] a = refl
asks-is_ether k id ((j, s) ∷ rest) a =
    ground (arith, kind_text s.kind a.0, asks-is_ether k id rest a.1)
  where
    kind_text : (t : String) → t ≡ "" → str_eq t "" ≡ true
    kind_text t e = ap (λ u. str_eq u "") e

-- After any passes over the links, failed or not, from no resources on, the first pass of the DHCP
-- controller starts a client on each link that has the type of an ethernet link, of whatever kind it is:
-- no resource tells a bridge or a virtual link from a card.
pub has-run_passes :
    (k : Kernel) (passes : List Pass) (id : String)
    → has id (reconcile (as_dhcp k (run_passes k passes [])) [])
      ≡ is_ether k id (run_passes k passes [])
unfolding has
has-run_passes k passes id =
    has-reconcile id (as_dhcp k (run_passes k passes [])) []
    ∙ asks-is_ether k id (run_passes k passes []) (run-NoKind k passes [] tt)
