-- ===== src/Network/Dhcp/Loop.antt =====
-- The lease loop with a client that keeps no lease.
use tailscale_os.Base.{◌≡◌, refl, Bool, true, false, List, [], ◌∷◌, All, All-append}
use tailscale_os.Network.Dhcp.{
  Round, Call, rebind, destroy, Lease, unbound, bound, crashed, returned, lease_round, run_dhcp,
}

abbrev pub is_late : Call → Bool
is_late rebind = true
is_late destroy = true
is_late _ = false

abbrev Early : Call → Type 0
Early c = is_late c ≡ false

lease_round-Early : (r : Round) → r.keeps_lease ≡ false → All Early (lease_round r).0
unfolding lease_round
lease_round-Early r k = after r.request_fails r.done_first r.renews
  where
    after :
        (a b c : Bool)
        → All Early (lease_round (record r { request_fails = a; done_first = b; renews = c })).0
    after true b c = (refl, tt)
    after false true c = (refl, (refl, (refl, tt)))
    after false false true = (refl, (refl, (refl, (refl, tt))))
    after false false false = rw k (refl, (refl, (refl, tt)))

-- With a client that gives no lease beside an error of its renewal, the loop never rebinds and never
-- removes the address of a lease, whatever happens: a failed renewal crashes it first.
pub run_dhcp_early :
    (lease : Lease) (rs : List Round)
    → All (λ r. r.keeps_lease ≡ false) rs
    → All (λ c. is_late c ≡ false) (run_dhcp lease rs).0
unfolding run_dhcp
run_dhcp_early lease [] h = tt
run_dhcp_early (returned e) (r ∷ rs) h = tt
run_dhcp_early crashed (r ∷ rs) h = tt
run_dhcp_early bound (r ∷ rs) h = run_dhcp_early bound rs h.1
run_dhcp_early unbound (r ∷ rs) h =
    All-append Early (lease_round r).0 (run_dhcp (lease_round r).1 rs).0 (lease_round-Early r h.0)
      (run_dhcp_early (lease_round r).1 rs h.1)
