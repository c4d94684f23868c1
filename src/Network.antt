-- ===== src/Network.antt =====
-- internal/app/machined/pkg/controllers/network: the controllers that bring the addresses and routes of
-- the kernel to what the resources ask for.
pub mod Route
pub mod Address
pub mod Dhcp
pub mod Links
pub mod Pass
pub mod Routing
pub mod Resolver
pub mod Lease
mod Tests
use tailscale_os.Base.{
  ℕ, ◌==◌, Option, none, some, List, [], ◌∷◌, String, str_eq, join, if◌then◌else◌,
}

-- `netip.Addr` and `net.IP` as bytes, with none of them for the zero value, and `netip.Prefix`.
abbrev pub Ip : Type 0
Ip = List ℕ

pub record Prefix : Type 0 where
  pub addr : Ip
  pub bits : ℕ

-- What the controllers read of `rtnetlink.LinkMessage`.
pub record Link : Type 0 where
  pub name : String
  pub index : ℕ

-- The phase of a resource.
pub data Phase : Type 0 where
  running tearing_down : Phase

abbrev first_named : List Link → String → ℕ
first_named [] name = 0
first_named (l ∷ ls) name =
    let rest = first_named ls name in if str_eq l.name name then l.index else rest

-- `resolveLinkName` of address_spec.go
unfoldable pub resolve_link_name : List Link → String → ℕ
resolve_link_name links name = if str_eq name "" then 0 else first_named links name

-- What a pass over a resource asked of the kernel and of the resource store, in order, and its error.
abbrev pub Done : Type 0 → Type 0
Done O = List O × Option String

-- A call, and what follows it if it succeeds. The text of an error is that of the code less the names and
-- the message that it prints.
abbrev pub then_do : {O : Type 0} → O → Option String → String → Done O → Done O
then_do op none what later = (op ∷ later.0, later.1)
then_do op (some e) what later = (op ∷ [], some (join what e))
