-- ===== src/Network/Address.antt =====
-- controllers/network/address_spec.go: one address resource against the addresses of the kernel.
pub mod Settled
use tailscale_os.Base.{
  ℕ, zero, suc, ◌+◌, ◌-◌, ◌*◌, ◌/◌, ◌%◌, ◌==◌, leb, Bool, true, false, not, ◌&&◌, ◌||◌, Option,
  none, some, List, [], ◌∷◌, String, length, if◌then◌else◌,
}
use tailscale_os.Network.{
  Ip, Prefix, Link, Phase, running, tearing_down, resolve_link_name, Done, then_do,
}

-- `AddressSpecSpec`
pub record AddressSpec : Type 0 where
  pub address : Prefix
  pub link_name : String
  pub family : ℕ
  pub scope : ℕ
  pub flags : ℕ

-- `rtnetlink.AddressMessage` with its attributes; `attr_flags` are the flags of those.
pub record AddressMessage : Type 0 where
  pub family : ℕ
  pub prefix_length : ℕ
  pub flags : ℕ
  pub scope : ℕ
  pub index : ℕ
  pub address : Ip
  pub local_address : Ip
  pub broadcast : Option Ip
  pub attr_flags : ℕ

pub data Op : Type 0 where
  removes adds : AddressMessage → Op
  releases : Op

-- An addition fails with `os.ErrExist` or with another error.
pub data Refusal : Type 0 where
  exists_already : Refusal
  refused : String → Refusal

pub record Answers : Type 0 where
  pub remove_err : AddressMessage → Option String
  pub add_err : AddressMessage → Option Refusal
  pub release_err : Option String

-- `a | b` on numbers of this many bits.
unfoldable pub bit_or : ℕ → ℕ → ℕ → ℕ
bit_or zero a b = 0
bit_or (suc w) a b = (if a % 2 == 1 || b % 2 == 1 then 1 else 0) + 2 * bit_or w (a / 2) (b / 2)

abbrev zip_or : Ip → Ip → Ip
zip_or [] mask = []
zip_or (x ∷ xs) [] = x ∷ xs
zip_or (x ∷ xs) (m ∷ mask) = bit_or 8 x (255 - m) ∷ zip_or xs mask

-- `is4` is `netip.Addr.Is4`, `ip_net` is `netipx.PrefixIPNet` with both parts under `To4`, where none
-- is nil, `ip_equal` is `net.IP.Equal`, and `managed` is `AddressFlags.Managed`.
module _ (is4 : Ip → Bool) (ip_net : Prefix → Option Ip × Ip) where
  -- `broadcastAddr`
  unfoldable pub broadcast_addr : Prefix → Option Ip
  unfolding bit_or
  broadcast_addr p = if not (is4 p.addr) || leb 31 p.bits then none else elim ((ip_net p).0) [
    | none ↦ none
    | some ip ↦ if length ip == length (ip_net p).1 then some (zip_or ip (ip_net p).1) else none
  ]

  module _ (ip_equal : Ip → Ip → Bool) (managed : ℕ → ℕ) where
    -- The tests of `findAddress`.
    unfoldable pub is_address : ℕ → Prefix → AddressMessage → Bool
    is_address link p a =
        (a.index == link) && (a.prefix_length == p.bits) && ip_equal a.address p.addr

    unfoldable pub find_address : List AddressMessage → ℕ → Prefix → Option AddressMessage
    find_address [] link p = none
    find_address (a ∷ as') link p =
        let rest = find_address as' link p in if is_address link p a then some a else rest

    -- `addressFlags`
    unfoldable pub address_flags : AddressMessage → ℕ
    unfolding bit_or
    address_flags a = bit_or 32 a.attr_flags a.flags

    -- The test of `syncAddress` on an address that is there.
    unfoldable pub current : AddressSpec → AddressMessage → Bool
    unfolding address_flags
    current s a = (a.scope == s.scope % 256) && (managed (address_flags a) == managed s.flags)

    unfoldable pub address_message : AddressSpec → ℕ → AddressMessage
    unfolding broadcast_addr
    address_message s link = record {
      family = s.family % 256;
      prefix_length = s.address.bits % 256;
      flags = managed s.flags % 256;
      scope = s.scope % 256;
      index = link;
      address = s.address.addr;
      local_address = s.address.addr;
      broadcast = broadcast_addr s.address;
      attr_flags = managed s.flags;
    }

    -- The addition; that the address is there already is no error.
    unfoldable pub add_address : Answers → AddressSpec → ℕ → Done Op
    unfolding address_message
    add_address k s link = elim (k.add_err (address_message s link)) [
      | some (refused e) ↦
          then_do (adds (address_message s link)) (some e) "error adding address: " ([], none)
      | _ ↦ (adds (address_message s link) ∷ [], none)
    ]

    unfoldable pub assign : Answers → AddressSpec → ℕ → Option AddressMessage → Done Op
    unfolding add_address current
    assign k s link none = add_address k s link
    assign k s link (some a) =
        if current s a
        then ([], none)
        else then_do (removes a) (k.remove_err a) "error removing address: " (add_address k s link)

    unfoldable pub remove_found : Answers → Option AddressMessage → Done Op
    remove_found k none = ([], none)
    remove_found k (some a) =
        then_do (removes a) (k.remove_err a) "error removing address: " ([], none)

    -- `syncAddress`
    unfoldable pub sync_address :
        Answers → List Link → List AddressMessage → Phase → AddressSpec → Done Op
    unfolding find_address assign remove_found
    sync_address k links addrs tearing_down s =
        let link = resolve_link_name links s.link_name in
        then_do releases k.release_err "error removing finalizer: "
          (if link == 0 then remove_found k (find_address addrs link s.address) else ([], none))
    sync_address k links addrs running s =
        let link = resolve_link_name links s.link_name in
        if link == 0 then ([], none) else assign k s link (find_address addrs link s.address)
