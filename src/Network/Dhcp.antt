-- ===== src/Network/Dhcp.antt =====
-- controllers/network/dhcp4.go: which links have a DHCP client, the lease loop of a client, and the search
-- domains of a lease.
pub mod Clients
pub mod Domains
pub mod Loop
pub mod Session
pub mod Timers
use tailscale_os.Base.{
  ℕ, leb, ◌==◌, Bool, true, false, not, ◌&&◌, ◌||◌, Option, none, some, List, [], ◌∷◌, ◌++◌, String,
  str_eq, keep, if◌then◌else◌,
}

-- What `reconcile` reads of a `LinkStatus`: its identifier, and whether it is physical.
pub record LinkStatus : Type 0 where
  pub id : String
  pub physical : Bool

abbrev pub wants_dhcp : LinkStatus → Bool
wants_dhcp l = l.physical

unfoldable pub has : String → List String → Bool
has id [] = false
has id (j ∷ js) = str_eq id j || has id js

unfoldable pub listed : String → List LinkStatus → Bool
listed id [] = false
listed id (l ∷ ls) = str_eq id l.id || listed id ls

-- The first loop of `reconcile`: a client for each link that wants one and has none.
unfoldable pub start_clients : List LinkStatus → List String → List String
unfolding has
start_clients [] clients = clients
start_clients (l ∷ ls) clients =
    start_clients ls
      (if has l.id clients then clients else if wants_dhcp l then l.id ∷ clients else clients)

-- The second loop: the client of a link that is gone is stopped.
unfoldable pub reconcile : List LinkStatus → List String → List String
unfolding start_clients listed
reconcile links clients = keep (λ id. listed id links) (start_clients links clients)

-- A text as its bytes.
abbrev pub Name : Type 0
Name = List ℕ

-- `validateDNSNameChars`: whether it returns nil.
unfoldable pub is_valid_name : Name → Bool
is_valid_name [] = true
is_valid_name (c ∷ cs) = not (leb c 32 || c == 127) && is_valid_name cs

abbrev pub same_name : Name → Name → Bool
same_name [] [] = true
same_name (a ∷ s) (b ∷ t) = a == b && same_name s t
same_name _ _ = false

unfoldable pub contains : Name → List Name → Bool
contains n [] = false
contains n (m ∷ ms) = same_name m n || contains n ms

abbrev keep_before : ℕ → Name → Name
keep_before c [] = if c == 0 then [] else c ∷ []
keep_before c (d ∷ ds) = c ∷ d ∷ ds

-- `strings.TrimRight(name, "\x00")`
unfoldable pub trim_zeros : Name → Name
trim_zeros [] = []
trim_zeros (c ∷ cs) = keep_before c (trim_zeros cs)

abbrev pub is_empty : Name → Bool
is_empty [] = true
is_empty (_ ∷ _) = false

-- `dhcpSearchDomains`, of the labels of option 119 (the empty list for a missing one) and the name of
-- option 15.
unfoldable pub search_domains : List Name → Name → List Name
unfolding is_valid_name contains trim_zeros
search_domains labels domain_name =
    let domains = keep is_valid_name labels in
    let name = trim_zeros domain_name in
    if not (is_empty name) && is_valid_name name && not (contains name domains)
    then domains ++ (name ∷ [])
    else domains

-- What the client and the context do in one round of the loop of `runDHCP`, once the client is made:
-- whether the request fails, whether the context ends before the first timer, whether the renewal
-- succeeds, whether it gives a lease beside its error if not, whether the rebinding succeeds, and whether
-- the context ends before the lease does.
pub record Round : Type 0 where
  pub request_fails : Bool
  pub done_first : Bool
  pub renews : Bool
  pub keeps_lease : Bool
  pub rebinds : Bool
  pub done_second : Bool

-- What the loop does: a call of the client, an application of a lease, or its removal.
pub data Call : Type 0 where
  request apply renew rebind destroy : Call

-- Where the loop is: without a lease, with one, returned, with an error or without one, or crashed on
-- the offer of a lease that is nil.
pub data Lease : Type 0 where
  unbound bound crashed : Lease
  returned : Bool → Lease

-- The body of the loop, under `ack == nil`.
unfoldable pub lease_round : Round → List Call × Lease
lease_round r =
    if r.request_fails
    then (request ∷ [], returned true)
    else if r.done_first
    then (request ∷ apply ∷ apply ∷ [], returned false)
    else if r.renews
    then (request ∷ apply ∷ renew ∷ apply ∷ [], bound)
    else if not r.keeps_lease
    then (request ∷ apply ∷ renew ∷ [], crashed)
    else if r.rebinds
    then (request ∷ apply ∷ renew ∷ rebind ∷ apply ∷ [], bound)
    else if r.done_second
    then (request ∷ apply ∷ renew ∷ rebind ∷ destroy ∷ [], returned false)
    else (request ∷ apply ∷ renew ∷ rebind ∷ destroy ∷ [], unbound)

-- The loop: with a lease, its body is passed over.
unfoldable pub run_dhcp : Lease → List Round → List Call × Lease
unfolding lease_round
run_dhcp lease [] = ([], lease)
run_dhcp (returned e) (r ∷ rs) = ([], returned e)
run_dhcp crashed (r ∷ rs) = ([], crashed)
run_dhcp bound (r ∷ rs) = run_dhcp bound rs
run_dhcp unbound (r ∷ rs) =
    let one = lease_round r in let rest = run_dhcp one.1 rs in (one.0 ++ rest.0, rest.1)
