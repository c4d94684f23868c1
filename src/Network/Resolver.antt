-- ===== src/Network/Resolver.antt =====
-- pkg/machinery/resources/network/resolver.go: the name servers of a resolver, and `Convert` between the
-- deprecated list of addresses and the list of name servers.
pub mod Converted
use tailscale_os.Base.{Option, none, some, List, [], ◌∷◌, String, join}
use tailscale_os.Network.{Ip}
use tailscale_os.Network.Dhcp.{Name}

-- `nethelpers.DNSProtocol` of package nethelpers, by the values that the code names.
pub data Protocol : Type 0 where
  default over_tls over_http unknown : Protocol

-- `NameServerSpec`
pub record NameServer : Type 0 where
  pub addr : Ip
  pub protocol : Protocol
  pub tls_server_name : String

-- `NameServerSpec.String`, where `text` is the text of an address in package netip.
unfoldable pub name_server_string : (Ip → String) → NameServer → String
name_server_string text s = elim (s.protocol) [
  | over_tls ↦ join (join (join (text s.addr) " (DoT, TLS Server Name: ") s.tls_server_name) ")"
  | over_http ↦ join (join (join (text s.addr) " (DoH, TLS Server Name: ") s.tls_server_name) ")"
  | default ↦ text s.addr
  | unknown ↦ join (text s.addr) " (Unknown Protocol)"
]

-- `ResolverSpecSpec`; a nil slice is `none`.
pub record Resolver : Type 0 where
  pub dns_servers : Option (List Ip)
  pub name_servers : Option (List NameServer)
  pub search_domains : List Name

abbrev pub plain_server : Ip → NameServer
plain_server a = record { addr = a; protocol = default; tls_server_name = "" }

abbrev pub addr_of : NameServer → Ip
addr_of s = s.addr

-- `Map` of package xslices, at the two types at which it is called; it may give a nil slice.
pub record Slices : Type 0 where
  pub to_servers : (Ip → NameServer) → List Ip → Option (List NameServer)
  pub to_addrs : (NameServer → Ip) → List NameServer → Option (List Ip)

module _ (m : Slices) where
  abbrev pub convert_parts : Option (List Ip) → Option (List NameServer) → Resolver → Resolver
  convert_parts (some xs) none r = record r { name_servers = m.to_servers plain_server xs }
  convert_parts none (some ss) r = record r { dns_servers = m.to_addrs addr_of ss }
  convert_parts none none r = r
  convert_parts (some xs) (some ss) r = r

  -- `Convert`
  unfoldable pub convert : Resolver → Resolver
  convert r = convert_parts r.dns_servers r.name_servers r
