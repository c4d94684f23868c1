-- ===== src/Network/Lease/Held.antt =====
-- controllers/network/dhcp4.go: `destroy` at the end of a lease, with the finalizers that
-- controllers/network/address_spec.go puts on the addresses. The store of resources is a parameter.
use tailscale_os.Base.{
  ◌≡◌, refl, sym, ap, ◌∙◌, succeeds, Bool, true, false, Option, none, some, List, [], ◌∷◌, ◌++◌,
  String, arith,
}
use tailscale_os.Network.{Phase, Done}
use tailscale_os.Network.Address as A
use tailscale_os.Network.Address.{AddressSpec}
use tailscale_os.Network.Pass.{Item, PassErrors, Call, is_live, pass}
use tailscale_os.Network.Pass.Guarded.{does_any, is_finalized, all_finalized, pass_finalizes}
use tailscale_os.Network.Lease.{Resources, address_id, destroy_lease}

-- The error of `Destroy` on a resource, by whether finalizers are pending on it.
abbrev pub Destroy : Type 0
Destroy = String → Bool → Option String

abbrev destroyed : String → Resources → Option String → Option String × Resources
destroyed link s none = (none, destroy_lease link s)
destroyed link s (some e) = (some e, s)

-- `destroy`: its error, which `runDHCP` drops, and the resources after it. `held` says on which
-- resources there are finalizers.
unfoldable pub end_lease :
    Destroy → (String → Bool) → String → Resources → Option String × Resources
end_lease destroy held link s =
    destroyed link s (destroy (address_id link) (held (address_id link)))

module _ {S O : Type 0} where
  finalized_in :
      (before after : List (Item S)) (i : Item S) (cs : List (Call O))
      → is_live i.phase ≡ true
      → all_finalized (before ++ (i ∷ after)) cs ≡ true
      → is_finalized i.id cs ≡ true
  finalized_in [] after i cs live h = ground (arith, live, h)
  finalized_in (b ∷ before) after i cs live h =
      finalized_in before after i cs live (ground (arith, h))

refused :
    (link : String) (s : Resources) (o : Option String)
    → succeeds o ≡ false
    → (succeeds (destroyed link s o).0 ≡ false) × ((destroyed link s o).1 ≡ s)
refused link s none e = cc
refused link s (some m) e = (refl, refl)

-- If the store refuses to destroy a resource with pending finalizers, as it is documented to, then once a
-- pass over the addresses, in which that of a link's lease is running, has asked for anything but
-- finalizers, the end of the lease fails and leaves all resources as they are, with the address.
pub end_lease_refused :
    (destroy : Destroy) (e : PassErrors) (sync : Phase → AddressSpec → Done A.Op)
    (before after : List (Item AddressSpec)) (i : Item AddressSpec) (link : String) (s : Resources)
    → ((id : String) → succeeds (destroy id true) ≡ false)
    → i.id ≡ address_id link
    → is_live i.phase ≡ true
    → does_any (pass e sync (before ++ (i ∷ after))).0 ≡ true
    → let calls = (pass e sync (before ++ (i ∷ after))).0 in
      let r = end_lease destroy (λ id. is_finalized id calls) link s in
      (succeeds r.0 ≡ false) × (r.1 ≡ s)
unfolding end_lease
end_lease_refused destroy e sync before after i link s refuses same live acts =
    let calls : List (Call A.Op) = (pass e sync (before ++ (i ∷ after))).0 in
    let held : is_finalized (address_id link) calls ≡ true =
      ap (λ id. is_finalized id calls) (sym same)
      ∙ finalized_in before after i calls live
          (ground (arith, acts, pass_finalizes e sync (before ++ (i ∷ after)))) in
    refused link s (destroy (address_id link) (is_finalized (address_id link) calls))
      (ap (λ b. succeeds (destroy (address_id link) b)) held ∙ refuses (address_id link))
