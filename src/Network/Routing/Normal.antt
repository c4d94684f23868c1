-- ===== src/Network/Routing/Normal.antt =====
-- The form that `Normalize` brings a route to.
use tailscale_os.Base.{ℕ, ◌≡◌, refl, arith}
use tailscale_os.Network.{Ip, Prefix}
use tailscale_os.Network.Route.{RouteSpec}
use tailscale_os.Network.Routing.{Net, clear, clear_destination, with_parts, normalize}

module _ (n : Net) where
  clear_settled : (a : Ip) (f g : ℕ) → clear n (clear n a f).0 g ≡ ((clear n a f).0, g)
  unfolding clear
  clear_settled a f g = ground arith

  destination_settled :
      (p : Prefix) → clear_destination n (clear_destination n p).0 ≡ ((clear_destination n p).0, 0)
  unfolding clear_destination
  destination_settled p = ground arith

  with_parts_settled :
      (r : RouteSpec) (d : Prefix) (g s : Ip)
      → clear_destination n d ≡ (d, 0)
      → ((f : ℕ) → clear n g f ≡ (g, f))
      → ((f : ℕ) → clear n s f ≡ (s, f))
      → normalize n (with_parts n r d g s) ≡ (with_parts n r d g s, 0)
  unfolding normalize
  with_parts_settled r d g s hd hg hs = rw (hd, hg 0, hs 0) refl

  -- A route that `Normalize` has returned stays as it is when it is normalised again, its scope too, and
  -- no family is found in it any more.
  pub normalize-normalize : (r : RouteSpec) → normalize n (normalize n r).0 ≡ ((normalize n r).0, 0)
  unfolding normalize
  normalize-normalize r =
      let d : Prefix × ℕ = clear_destination n r.destination in
      let g : Ip × ℕ = clear n r.gateway d.1 in
      let s : Ip × ℕ = clear n r.source g.1 in
      with_parts_settled r d.0 g.0 s.0 (destination_settled r.destination)
        (λ f. clear_settled r.gateway d.1 f) (λ f. clear_settled r.source g.1 f)
