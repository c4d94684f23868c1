-- ===== src/Network/Resolver/Converted.antt =====
-- What survives a conversion.
use tailscale_os.Base.{◌≡◌, refl, ap, ◌∙◌, Option, none, some, List, [], ◌∷◌, map}
use tailscale_os.Network.{Ip}
use tailscale_os.Network.Dhcp.{Name}
use tailscale_os.Network.Resolver.{
  Resolver, NameServer, plain_server, addr_of, Slices, convert, convert_parts,
}

-- The entries of a slice, which has none if it is nil.
abbrev pub contents {ℓ} : {A : Type ℓ} → Option (List A) → List A
contents none = []
contents (some xs) = xs

-- `Map` gives the results in order.
pub record Lawful (m : Slices) : Type 0 where
  pub servers : (f : Ip → NameServer) (xs : List Ip) → contents (m.to_servers f xs) ≡ map f xs
  pub addrs : (f : NameServer → Ip) (ss : List NameServer) → contents (m.to_addrs f ss) ≡ map f ss

-- A resolver of the old form and one of the new, and what a reader of one form alone leaves.
abbrev pub old_form : Option (List Ip) → List Name → Resolver
old_form xs ds = record { dns_servers = xs; name_servers = none; search_domains = ds }

abbrev pub new_form : Option (List NameServer) → List Name → Resolver
new_form ss ds = record { dns_servers = none; name_servers = ss; search_domains = ds }

abbrev pub forget_old : Resolver → Resolver
forget_old r = record r { dns_servers = none }

abbrev pub forget_new : Resolver → Resolver
forget_new r = record r { name_servers = none }

addr-plain : (xs : List Ip) → map addr_of (map plain_server xs) ≡ xs
addr-plain [] = refl
addr-plain (a ∷ xs) = ap (◌∷◌ a) (addr-plain xs)

module _ (m : Slices) (law : Lawful m) where
  same_domains : (r : Resolver) → (convert m r).search_domains ≡ r.search_domains
  unfolding convert
  same_domains r = by_form r.dns_servers r.name_servers
    where
      by_form :
          (d : Option (List Ip)) (n : Option (List NameServer))
          → (convert_parts m d n r).search_domains ≡ r.search_domains
      by_form (some xs) none = refl
      by_form none (some ss) = refl
      by_form none none = refl
      by_form (some xs) (some ss) = refl

  -- Neither form loses an address through the other one.
  through_new :
      (o : Option (List NameServer)) (ds : List Name)
      → contents (convert m (new_form o ds)).dns_servers ≡ map addr_of (contents o)
  unfolding convert
  through_new none ds = refl
  through_new (some ss) ds = law.addrs addr_of ss

  through_old :
      (o : Option (List Ip)) (ds : List Name)
      → contents (convert m (old_form o ds)).name_servers ≡ map plain_server (contents o)
  unfolding convert
  through_old none ds = refl
  through_old (some xs) ds = law.servers plain_server xs

  old_again :
      (o : Option (List Ip)) (ds : List Name)
      → forget_old (convert m (old_form o ds))
        ≡ new_form (convert m (old_form o ds)).name_servers ds
  unfolding convert
  old_again none ds = refl
  old_again (some xs) ds = refl

  new_again :
      (o : Option (List NameServer)) (ds : List Name)
      → forget_new (convert m (new_form o ds)) ≡ old_form (convert m (new_form o ds)).dns_servers ds
  unfolding convert
  new_again none ds = refl
  new_again (some ss) ds = refl

  -- With a `Map` that gives the results in order, the addresses of a resolver in either form are read
  -- back, in order, from a copy that is converted, keeps the other form alone, and is converted again;
  -- the search domains stay.
  pub convert_back :
      (xs : Option (List Ip)) (ss : Option (List NameServer)) (ds : List Name)
      → let r = convert m (forget_old (convert m (old_form xs ds))) in
        let s = convert m (forget_new (convert m (new_form ss ds))) in
        (contents r.dns_servers ≡ contents xs)
        × (map addr_of (contents s.name_servers) ≡ map addr_of (contents ss))
        × (r.search_domains ≡ ds)
        × (s.search_domains ≡ ds)
  convert_back xs ss ds =
      let n = (convert m (old_form xs ds)).name_servers in
      let d = (convert m (new_form ss ds)).dns_servers in
      (
        ap (λ r. contents (convert m r).dns_servers) (old_again xs ds)
            ∙ through_new n ds
            ∙ ap (map addr_of) (through_old xs ds)
            ∙ addr-plain (contents xs),
        ap (λ r. map addr_of (contents (convert m r).name_servers)) (new_again ss ds)
            ∙ ap (map addr_of) (through_old d ds)
            ∙ addr-plain (contents d)
            ∙ through_new ss ds,
        same_domains (forget_old (convert m (old_form xs ds))) ∙ same_domains (old_form xs ds),
        same_domains (forget_new (convert m (new_form ss ds))) ∙ same_domains (new_form ss ds),
      )
