-- ===== src/Network/Route.antt =====
-- controllers/network/route_spec.go: one route resource against the routes of the kernel.
pub mod Settled
use tailscale_os.Base.{
  ℕ, ◌==◌, ◌%◌, ◌^◌, Bool, true, false, not, ◌&&◌, ◌||◌, Option, none, some, List, [], ◌∷◌, ◌++◌,
  String, str_eq, join, keep, if◌then◌else◌,
}
use tailscale_os.Network.{
  Ip, Prefix, Link, Phase, running, tearing_down, resolve_link_name, Done, then_do,
}

-- `RouteSpecSpec`
pub record RouteSpec : Type 0 where
  pub family : ℕ
  pub destination : Prefix
  pub source : Ip
  pub gateway : Ip
  pub out_link_name : String
  pub table : ℕ
  pub priority : ℕ
  pub scope : ℕ
  pub route_type : ℕ
  pub flags : ℕ
  pub protocol : ℕ
  pub mtu : ℕ

-- `rtnetlink.RouteMessage` with its attributes: `header_table` stands in the message, and `table` in the
-- attributes.
pub record RouteMessage : Type 0 where
  pub family : ℕ
  pub dst_length : ℕ
  pub header_table : ℕ
  pub protocol : ℕ
  pub scope : ℕ
  pub route_type : ℕ
  pub flags : ℕ
  pub dst : Ip
  pub src : Ip
  pub gateway : Ip
  pub priority : ℕ
  pub table : ℕ
  pub out_iface : ℕ
  pub metrics : Option ℕ

-- What is asked of the kernel and of the resource store, in order.
pub data Op : Type 0 where
  removes adds : RouteMessage → Op
  releases : Op

-- The answers: an error, or none.
pub record Answers : Type 0 where
  pub remove_err : RouteMessage → Option String
  pub add_err : RouteMessage → Option String
  pub release_err : Option String

abbrev pub u8 : ℕ → ℕ
u8 n = n % 256

-- `network.DefaultRouteMetric`
abbrev pub default_route_metric : ℕ
default_route_metric = 1024

abbrev pub is_zero : Ip → Bool
is_zero [] = true
is_zero (_ ∷ _) = false

-- `netipPrefixBitsCorrected`
unfoldable pub prefix_bits_corrected : Prefix → ℕ
prefix_bits_corrected p = if is_zero p.addr then 0 else p.bits

-- `linkIndexMatches`
unfoldable pub link_index_matches : ℕ → ℕ → Bool
link_index_matches actual expected = expected == 0 || actual == expected

abbrev pub mtu_of : Option ℕ → ℕ
mtu_of none = 0
mtu_of (some n) = n

-- `ip_equal` is `net.IP.Equal`, `flags_equal` is `RouteFlags.Equal`, and `inet6` is `FamilyInet6`.
module _ (ip_equal : Ip → Ip → Bool) (flags_equal : ℕ → ℕ → Bool) (inet6 : ℕ) where
  unfoldable pub family_matches : RouteMessage → RouteSpec → Bool
  family_matches m s = m.family == u8 s.family

  unfoldable pub destination_matches : RouteMessage → RouteSpec → Bool
  unfolding prefix_bits_corrected
  destination_matches m s =
      (m.dst_length == prefix_bits_corrected s.destination)
      && (m.dst_length == 0 || ip_equal m.dst s.destination.addr)

  unfoldable pub gateway_matches : RouteMessage → RouteSpec → Bool
  gateway_matches m s = ip_equal m.gateway s.gateway

  unfoldable pub table_matches : RouteMessage → RouteSpec → Bool
  table_matches m s = m.header_table == s.table

  unfoldable pub priority_matches : RouteMessage → RouteSpec → Bool
  priority_matches m s =
      m.priority == s.priority
      || (s.family == inet6 && s.priority == 0 && m.priority == default_route_metric)

  unfoldable pub scope_matches : RouteMessage → RouteSpec → Bool
  scope_matches m s = s.family == inet6 || m.scope == u8 s.scope

  -- The tests of `findMatchingRoutes`.
  unfoldable pub matches : RouteSpec → RouteMessage → Bool
  unfolding family_matches destination_matches gateway_matches table_matches priority_matches
  matches s m =
      family_matches m s
      && destination_matches m s
      && gateway_matches m s
      && table_matches m s
      && priority_matches m s

  unfoldable pub find_matching_routes : List RouteMessage → RouteSpec → List RouteMessage
  find_matching_routes [] s = []
  find_matching_routes (m ∷ ms) s =
      let rest = find_matching_routes ms s in if matches s m then m ∷ rest else rest

  -- The test of `syncRoute` on a route that is there.
  unfoldable pub current : RouteSpec → ℕ → RouteMessage → Bool
  unfolding scope_matches link_index_matches
  current s link m =
      scope_matches m s
      && flags_equal m.flags s.flags
      && (m.protocol == u8 s.protocol)
      && link_index_matches m.out_iface link
      && (is_zero s.source || ip_equal m.src s.source)
      && (mtu_of m.metrics == s.mtu)
      && (m.route_type == u8 s.route_type)

  unfoldable pub route_message : RouteSpec → ℕ → RouteMessage
  unfolding prefix_bits_corrected
  route_message s link = record {
    family = u8 s.family;
    dst_length = u8 (prefix_bits_corrected s.destination);
    header_table = 0;
    protocol = u8 s.protocol;
    scope = u8 s.scope;
    route_type = u8 s.route_type;
    flags = s.flags;
    dst = s.destination.addr;
    src = s.source;
    gateway = s.gateway;
    priority = s.priority;
    table = s.table;
    out_iface = link;
    metrics = (if s.mtu == 0 then none else some s.mtu);
  }

  -- The loop over the matching routes in the phase of teardown, and what follows it.
  unfoldable pub tear_down : Answers → List RouteMessage → Done Op
  tear_down k [] = then_do releases k.release_err "error removing finalizer: " ([], none)
  tear_down k (m ∷ ms) =
      then_do (removes m) (k.remove_err m) "error removing route: " (tear_down k ms)

  unfoldable pub add_missing : Answers → RouteSpec → ℕ → Bool → Done Op
  unfolding route_message
  add_missing k s link true = ([], none)
  add_missing k s link false =
      then_do (adds (route_message s link)) (k.add_err (route_message s link))
        "error adding route: " ([], none)

  -- The loop over the matching routes in the running phase, with `matchFound`.
  unfoldable pub replace_stale : Answers → RouteSpec → ℕ → List RouteMessage → Bool → Done Op
  unfolding add_missing current
  replace_stale k s link [] found = add_missing k s link found
  replace_stale k s link (m ∷ ms) found =
      let ok = current s link m in
      let rest = replace_stale k s link ms (found || ok) in
      if ok then rest else then_do (removes m) (k.remove_err m) "error removing route: " rest

  -- `syncRoute`
  unfoldable pub sync_route : Answers → List Link → List RouteMessage → Phase → RouteSpec → Done Op
  unfolding tear_down replace_stale find_matching_routes
  sync_route k links routes tearing_down s = tear_down k (find_matching_routes routes s)
  sync_route k links routes running s =
      let link = resolve_link_name links s.out_link_name in
      if link == 0 && not (str_eq s.out_link_name "")
      then ([], none)
      else replace_stale k s link (find_matching_routes routes s) false
