-- ===== src/Network/Routing.antt =====
-- resources/network/route.go: `Normalize`; and `RouteID` of resources/network/network.go. The packages
-- netip and nethelpers are parameters.
pub mod Normal
use tailscale_os.Base.{
  ℕ, ◌==◌, Bool, true, false, not, ◌&&◌, Option, none, some, List, [], ◌∷◌, String, join,
  if◌then◌else◌,
}
use tailscale_os.Network.{Ip, Prefix}
use tailscale_os.Network.Route.{RouteSpec, is_zero}

-- What the code takes from those packages: constants, tests, and texts, `number_text` being that of `%d`.
pub record Net : Type 0 where
  pub inet4 : ℕ
  pub inet6 : ℕ
  pub scope_global : ℕ
  pub scope_link : ℕ
  pub scope_host : ℕ
  pub table_main : ℕ
  pub type_unicast : ℕ
  pub protocol_boot : ℕ
  pub address_permanent : ℕ
  pub is_loopback : Ip → Bool
  pub contains : Prefix → Ip → Bool
  pub bit_len : Ip → ℕ
  pub addr_text : Ip → String
  pub prefix_text : Prefix → String
  pub table_text : ℕ → String
  pub family_text : ℕ → String
  pub number_text : ℕ → String

abbrev pub same_ip : Ip → Ip → Bool
same_ip [] [] = true
same_ip (a ∷ xs) (b ∷ ys) = a == b && same_ip xs ys
same_ip _ _ = false

-- 0.0.0.0 and ::
abbrev pub zero4 : Ip
zero4 = 0 ∷ 0 ∷ 0 ∷ 0 ∷ []

abbrev pub zero16 : Ip
zero16 = 0 ∷ 0 ∷ 0 ∷ 0 ∷ 0 ∷ 0 ∷ 0 ∷ 0 ∷ 0 ∷ 0 ∷ 0 ∷ 0 ∷ 0 ∷ 0 ∷ 0 ∷ 0 ∷ []

abbrev pub no_prefix : Prefix
no_prefix = record { addr = []; bits = 0 }

module _ (n : Net) where
  -- The two tests of `Normalize` on the gateway, and on the source, with the family so far.
  unfoldable pub clear : Ip → ℕ → Ip × ℕ
  clear a family =
      if same_ip a zero4
      then ([], n.inet4)
      else if same_ip a zero16
      then ([], n.inet6)
      else (a, family)

  -- Those on the destination. The prefix of no address has no bits in the code, and 0 here; it passes
  -- neither test.
  unfoldable pub clear_destination : Prefix → Prefix × ℕ
  clear_destination p =
      if p.bits == 0 && same_ip p.addr zero4
      then (no_prefix, n.inet4)
      else if p.bits == 0 && same_ip p.addr zero16
      then (no_prefix, n.inet6)
      else (p, 0)

  abbrev pub scope_for : Ip → Prefix → ℕ
  scope_for gateway destination =
      if is_zero gateway && not (is_zero destination.addr)
      then n.scope_link
      else if n.is_loopback destination.addr
      then n.scope_host
      else n.scope_global

  abbrev pub with_parts : RouteSpec → Prefix → Ip → Ip → RouteSpec
  with_parts r d g s = record r { destination = d; gateway = g; source = s; scope = scope_for g d }

  -- `Normalize`: the route, and the family that it returns.
  unfoldable pub normalize : RouteSpec → RouteSpec × ℕ
  unfolding clear clear_destination
  normalize r =
      let d : Prefix × ℕ = clear_destination r.destination in
      let g : Ip × ℕ = clear r.gateway d.1 in
      let s : Ip × ℕ = clear r.source g.1 in (with_parts r d.0 g.0 s.0, s.1)

  abbrev slash : String → String
  slash t = join t "/"

  -- `RouteID`
  unfoldable pub route_id : ℕ → ℕ → Prefix → Ip → ℕ → String → String
  route_id table family destination gateway priority out_link_name =
      let of_table = if table == n.table_main then "" else slash (n.table_text table) in
      let before = if family == n.inet6 then join of_table (slash out_link_name) else of_table in
      join before (
        join (slash (n.family_text family)) (
          join (slash (n.addr_text gateway))
            (join (slash (n.prefix_text destination)) (n.number_text priority))))
