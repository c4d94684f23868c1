-- ===== src/Network/Dhcp/Session.antt =====
-- controllers/network/dhcp4.go: the clients that `reconcile` starts over many passes, and `runDHCP` from
-- the making of its client on.
use tailscale_os.Base.{
  ◌≡◌, refl, ap, ◌∙◌, Bool, true, false, ◌||◌, Option, none, some, List, [], ◌∷◌, ◌++◌, String,
  eq_iff, All, if◌then◌else◌, arith,
}
use tailscale_os.Network.Dhcp.{
  LinkStatus, wants_dhcp, has, listed, reconcile, Round, Call, Lease, unbound, crashed, returned,
  run_dhcp, lease_round,
}
use tailscale_os.Network.Dhcp.Clients.{asks, has-reconcile}

-- The first loop of `reconcile`: the links on which it starts the goroutine of a client.
unfoldable pub started : List LinkStatus → List String → List String
unfolding has
started [] clients = []
started (l ∷ ls) clients =
    let rest = started ls clients in
    let more = l.id ∷ started ls (l.id ∷ clients) in
    if has l.id clients then rest else if wants_dhcp l then more else rest

-- The links on which passes start a client, from the clients of the controller on. A client whose
-- goroutine has returned stays among them.
unfoldable pub started_by : List (List LinkStatus) → List String → List String
unfolding started
started_by [] clients = []
started_by (links ∷ passes) clients =
    started links clients ++ started_by passes (reconcile links clients)

-- `runDHCP`: the error of the call that makes the client, and whether that gives a client beside an
-- error. `Close` is deferred before the error is looked at, and crashes on a client that is nil.
unfoldable pub run_client : Option String → Bool → List Round → List Call × Lease
run_client none gives rounds = run_dhcp unbound rounds
run_client (some e) true rounds = ([], returned true)
run_client (some e) false rounds = ([], crashed)

not_started :
    (id : String) (links : List LinkStatus) (clients : List String)
    → has id clients ≡ true
    → has id (started links clients) ≡ false
unfolding started has
not_started id [] clients h = refl
not_started id (l ∷ ls) clients h =
    ground
      (arith, h, not_started id ls clients h, not_started id ls (l.id ∷ clients), eq_iff id l.id)

has-append : (id : String) (xs ys : List String) → has id (xs ++ ys) ≡ (has id xs || has id ys)
unfolding has
has-append id [] ys = refl
has-append id (x ∷ xs) ys = ground (arith, has-append id xs ys)

-- A link that stays listed keeps its client, and gets no other.
never_again :
    (id : String) (passes : List (List LinkStatus)) (clients : List String)
    → has id clients ≡ true
    → All (λ links. listed id links ≡ true) passes
    → has id (started_by passes clients) ≡ false
unfolding started_by has
never_again id [] clients h a = refl
never_again id (links ∷ passes) clients h a =
    has-append id (started links clients) (started_by passes (reconcile links clients))
    ∙ ap (λ b. b || has id (started_by passes (reconcile links clients)))
        (not_started id links clients h)
    ∙ never_again id passes (reconcile links clients)
        (has-reconcile id links clients ∙ ground (arith, h, a.0)) a.1

stays_returned : (rounds : List Round) → (run_dhcp (returned true) rounds).1 ≡ returned true
unfolding run_dhcp
stays_returned [] = refl
stays_returned (r ∷ rounds) = refl

-- If the first request of a client fails, `runDHCP` returns with an error; and on a link for which a pass
-- has a client started, no later pass starts another one as long as the link stays listed, whatever
-- became of the first.
pub failed_request_is_final :
    (id : String) (links : List LinkStatus) (clients : List String)
    (passes : List (List LinkStatus)) (gives : Bool) (r : Round) (rounds : List Round)
    → asks id links ≡ true
    → r.request_fails ≡ true
    → All (λ later. listed id later ≡ true) passes
    → ((run_client none gives (r ∷ rounds)).1 ≡ returned true)
      × (has id (started_by passes (reconcile links clients)) ≡ false)
unfolding run_client run_dhcp lease_round
failed_request_is_final id links clients passes gives r rounds wants fails stays = (
  rw fails (stays_returned rounds),
  never_again id passes (reconcile links clients)
      (has-reconcile id links clients ∙ ground (arith, wants)) stays,
)
