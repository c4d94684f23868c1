-- ===== src/Network/Route/Settled.antt =====
-- What a pass over a route asks for.
use tailscale_os.Base.{
  ℕ, ◌==◌, ◌≡◌, refl, Bool, true, false, not, ◌&&◌, ◌||◌, none, List, [], ◌∷◌, ◌++◌, str_eq, keep,
  map, if◌then◌else◌, arith,
}
use tailscale_os.Network.{Ip, Link, running, resolve_link_name}
use tailscale_os.Network.Route.{
  RouteSpec, RouteMessage, Op, removes, adds, Answers, matches, find_matching_routes, current,
  route_message, add_missing, replace_stale, sync_route,
}

abbrev pub any {ℓ} : {A : Type ℓ} → (A → Bool) → List A → Bool
any p [] = false
any p (x ∷ xs) = p x || any p xs

module _ (ip_equal : Ip → Ip → Bool) (flags_equal : ℕ → ℕ → Bool) (inet6 : ℕ) where
  abbrev fits : RouteSpec → RouteMessage → Bool
  fits s m = matches ip_equal flags_equal inet6 s m

  abbrev is_current : RouteSpec → ℕ → RouteMessage → Bool
  is_current s link m = current ip_equal flags_equal inet6 s link m

  abbrev pub stale : RouteSpec → ℕ → RouteMessage → Bool
  stale s link m = fits s m && not (is_current s link m)

  abbrev pub wanted : RouteSpec → ℕ → RouteMessage → Bool
  wanted s link m = fits s m && is_current s link m

  -- The kernel does what it is asked.
  pub record Obeys (k : Answers) : Type 0 where
    pub removal : (m : RouteMessage) → k.remove_err m ≡ none
    pub addition : (m : RouteMessage) → k.add_err m ≡ none

  abbrev pub plan : RouteSpec → ℕ → List RouteMessage → Bool → List Op
  plan s link routes found =
      map removes (keep (stale s link) routes)
      ++ (if found || any (wanted s link) routes
          then []
          else adds (route_message ip_equal flags_equal inet6 s link) ∷ [])

  replace_stale-plan :
      (k : Answers) (s : RouteSpec) (link : ℕ) (routes : List RouteMessage) (found : Bool)
      → Obeys k
      → replace_stale ip_equal flags_equal inet6 k s link
          (find_matching_routes ip_equal flags_equal inet6 routes s)
          found
        ≡ (plan s link routes found, none)
  unfolding replace_stale find_matching_routes add_missing
  replace_stale-plan k s link [] true o = refl
  replace_stale-plan k s link [] false o =
      rw (o.addition (route_message ip_equal flags_equal inet6 s link)) refl
  replace_stale-plan k s link (m ∷ ms) found o = ground (
    arith,
    replace_stale-plan k s link ms found o,
    replace_stale-plan k s link ms true o,
    o.removal m,
  )

  -- If the kernel does what it is asked, a pass over a running route whose link is there deletes every
  -- matching route that is not current, in the order of the listing, keeps those that are, and adds the
  -- route of the resource exactly if none of them was kept.
  pub sync_route-plan :
      (k : Answers) (links : List Link) (routes : List RouteMessage) (s : RouteSpec)
      → Obeys k
      → resolve_link_name links s.out_link_name == 0 && not (str_eq s.out_link_name "") ≡ false
      → sync_route ip_equal flags_equal inet6 k links routes running s
        ≡ (plan s (resolve_link_name links s.out_link_name) routes false, none)
  unfolding sync_route
  sync_route-plan k links routes s o there =
      rw (there, sync_route)
        (replace_stale-plan k s (resolve_link_name links s.out_link_name) routes false o)
