-- ===== src/Network/Links/Swept.antt =====
-- Which links have a resource after a pass.
use tailscale_os.Base.{
  succeeds, is_some, ◌≡◌, refl, ap, ◌∙◌, Bool, false, not, ◌&&◌, ◌||◌, Option, none, some, List, [],
  ◌∷◌, String, str_eq, eq_iff, keep, lookup, lookup-insert, lookup-delete, delete, arith,
}
use tailscale_os.Network.Dhcp.{has}
use tailscale_os.Network.Links.{
  Kernel, LinkMessage, write_status, remaining, Store, sync_err, sync_link, sync_links, destroy_all,
  ids_of, update_status, or_else, zero_spec, reconcile_links, reconcile_listed,
}

abbrev pub has_status : String → Store → Bool
has_status id store = is_some (lookup id store)

-- Whether a link of this name is listed whose two calls succeed.
abbrev pub is_synced : Kernel → String → List LinkMessage → Bool
is_synced k id [] = false
is_synced k id (l ∷ ls) = str_eq id l.name && succeeds (sync_err k l) || is_synced k id ls

has-ids_of : (id : String) (store : Store) → has id (ids_of store) ≡ has_status id store
unfolding has lookup
has-ids_of id [] = refl
has-ids_of id ((j, s) ∷ rest) = ground (arith, has-ids_of id rest)

has-keep_others :
    (id name : String) (ids : List String)
    → has id (keep (λ j. not (str_eq j name)) ids) ≡ (has id ids && not (str_eq id name))
unfolding has
has-keep_others id name [] = refl
has-keep_others id name (j ∷ js) =
    ground (arith, has-keep_others id name js, eq_iff id j, eq_iff id name, eq_iff j name)

status-write_status :
    (k : Kernel) (l : LinkMessage) (o : Option String) (store : Store) (id : String)
    → has_status id (write_status k l o store)
      ≡ (has_status id store || str_eq id l.name && succeeds o)
status-write_status k l none store id = ground (
  arith,
  lookup-insert l.name id (update_status k l (or_else zero_spec (lookup l.name store))) store,
)
status-write_status k l (some e) store id = ground arith

has-remaining :
    (name : String) (o : Option String) (ids : List String) (id : String)
    → has id (remaining name o ids) ≡ (has id ids && not (str_eq id name && succeeds o))
has-remaining name none ids id = has-keep_others id name ids ∙ ground arith
has-remaining name (some e) ids id = ground arith

status-sync_links :
    (k : Kernel) (links : List LinkMessage) (store : Store) (ids : List String) (id : String)
    → has_status id (sync_links k links store ids).0 ≡ (has_status id store || is_synced k id links)
unfolding sync_links sync_link
status-sync_links k [] store ids id = ground arith
status-sync_links k (l ∷ ls) store ids id =
    status-sync_links k ls (write_status k l (sync_err k l) store)
      (remaining l.name (sync_err k l) ids) id
    ∙ ap (λ b. b || is_synced k id ls) (status-write_status k l (sync_err k l) store id)
    ∙ or_assoc (has_status id store) (str_eq id l.name && succeeds (sync_err k l))
        (is_synced k id ls)
  where
    or_assoc : (a b c : Bool) → ((a || b) || c) ≡ (a || (b || c))
    or_assoc a b c = ground arith

has-sync_links :
    (k : Kernel) (links : List LinkMessage) (store : Store) (ids : List String) (id : String)
    → has id (sync_links k links store ids).1 ≡ (has id ids && not (is_synced k id links))
unfolding sync_links sync_link
has-sync_links k [] store ids id = ground arith
has-sync_links k (l ∷ ls) store ids id =
    has-sync_links k ls (write_status k l (sync_err k l) store)
      (remaining l.name (sync_err k l) ids) id
    ∙ ap (λ b. b && not (is_synced k id ls)) (has-remaining l.name (sync_err k l) ids id)
    ∙ and_not (has id ids) (str_eq id l.name && succeeds (sync_err k l)) (is_synced k id ls)
  where
    and_not : (a b c : Bool) → ((a && not b) && not c) ≡ (a && not (b || c))
    and_not a b c = ground arith

module _ (k : Kernel) (all : (id : String) → k.destroy_err id ≡ none) where
  status-destroy_all :
      (ids : List String) (store : Store) (id : String)
      → (has_status id (destroy_all k ids store).1 ≡ (has_status id store && not (has id ids)))
        × ((destroy_all k ids store).0 ≡ none)
  unfolding destroy_all has
  status-destroy_all [] store id = (ground arith, refl)
  status-destroy_all (j ∷ js) store id =
      let (kept, done) = status-destroy_all js (delete j store) id in
      rw (all j, destroy_all) (kept ∙ ground (arith, lookup-delete j id store), done)

  -- If both lists and all destructions succeed, a pass succeeds, and whatever the store held before, the
  -- links that have a resource after it are exactly those the kernel lists under that name and whose
  -- calls succeeded. The order of the destructions does not matter.
  pub status-reconcile_links :
      ((ids : List String) (id : String) → has id (k.arrange ids) ≡ has id ids)
      → (links : List LinkMessage) (store : Store) (id : String)
      → let r = reconcile_links k none none links store in
        (has_status id r.1 ≡ is_synced k id links) × (r.0 ≡ none)
  unfolding reconcile_links reconcile_listed
  status-reconcile_links arranged links store id =
      let r : Store × List String = sync_links k links store (ids_of store) in
      let (kept, done) = status-destroy_all (k.arrange r.1) r.0 id in
      (
        kept
            ∙ ap (λ b. has_status id r.0 && not b)
                (arranged r.1 id
                  ∙ has-sync_links k links store (ids_of store) id
                  ∙ ap (λ b. b && not (is_synced k id links)) (has-ids_of id store))
            ∙ ap (λ b. b && not (has_status id store && not (is_synced k id links)))
                (status-sync_links k links store (ids_of store) id)
            ∙ swept (has_status id store) (is_synced k id links),
        done,
      )
    where
      swept : (a b : Bool) → ((a || b) && not (a && not b)) ≡ b
      swept a b = ground arith
