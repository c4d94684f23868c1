-- ===== src/Network/Address/Settled.antt =====
-- An address that is there as asked stays, and one that was assigned is not assigned again.
use tailscale_os.Base.{
  ℕ, ◌<◌, ◌%◌, ◌≡◌, Bool, true, not, Option, none, List, [], ◌∷◌, ◌++◌, String, keep,
}
use tailscale_os.Network.{Ip, Prefix, Link, Phase}
use tailscale_os.Network.Address.{
  AddressSpec, AddressMessage, Op, removes, adds, releases, Answers, is_address, find_address,
  address_flags, address_message, assign, sync_address,
}

module _ (is4 : Ip → Bool) (ip_net : Prefix → Option Ip × Ip) (ip_equal : Ip → Ip → Bool)
    (managed : ℕ → ℕ) where
  abbrev pub sync :
      Answers → List Link → List AddressMessage → Phase → AddressSpec → List Op × Option String
  sync k links addrs ph s = sync_address is4 ip_net ip_equal managed k links addrs ph s

  abbrev pub flags_of : AddressMessage → ℕ
  flags_of a = address_flags is4 ip_net ip_equal managed a

  -- The kernel does what it is asked: `obey` runs what was asked on its addresses, where each added one
  -- is read back as `read` says.
  abbrev pub obey :
      (AddressMessage → AddressMessage)
      → (AddressMessage → AddressMessage → Bool)
      → List Op
      → List AddressMessage
      → List AddressMessage
  obey read same [] addrs = addrs
  obey read same (removes a ∷ ops) addrs = obey read same ops (keep (λ b. not (same a b)) addrs)
  obey read same (adds a ∷ ops) addrs = obey read same ops (addrs ++ (read a ∷ []))
  obey read same (releases ∷ ops) addrs = obey read same ops addrs

  -- The kernel does what it is asked, and reads an added address back with what was written, but for the
  -- flags that are not managed. `same` is the identity of addresses, so a link has an address once.
  -- `AddressFlags.Managed` is a mask, and `net.IP.Equal` holds of an address and itself.
  pub record Faithful (k : Answers) (s : AddressSpec) (link : ℕ)
      (read : AddressMessage → AddressMessage) (same : AddressMessage → AddressMessage → Bool)
      : Type 0 where
    pub removal : (a : AddressMessage) → k.remove_err a ≡ none
    pub addition : (a : AddressMessage) → k.add_err a ≡ none
    pub once :
        (a b : AddressMessage)
        → is_address is4 ip_net ip_equal managed link s.address a ≡ true
        → is_address is4 ip_net ip_equal managed link s.address b ≡ true
        → same a b ≡ true
    pub same_index : (read (address_message is4 ip_net ip_equal managed s link)).index ≡ link
    pub same_length :
        (read (address_message is4 ip_net ip_equal managed s link)).prefix_length
        ≡ s.address.bits % 256
    pub same_address :
        (read (address_message is4 ip_net ip_equal managed s link)).address ≡ s.address.addr
    pub same_scope :
        (read (address_message is4 ip_net ip_equal managed s link)).scope ≡ s.scope % 256
    pub same_flags :
        managed (flags_of (read (address_message is4 ip_net ip_equal managed s link)))
        ≡ managed (flags_of (address_message is4 ip_net ip_equal managed s link))
    pub is_mask :
        managed (flags_of (address_message is4 ip_net ip_equal managed s link)) ≡ managed s.flags
    pub bits_fit : s.address.bits < 256
    pub equal_itself : ip_equal s.address.addr s.address.addr ≡ true

  module _ (k : Answers) (s : AddressSpec) (link : ℕ) (read : AddressMessage → AddressMessage)
      (same : AddressMessage → AddressMessage → Bool) (addrs : List AddressMessage)
      (v : Faithful k s link read same) where
    abbrev find : List AddressMessage → Option AddressMessage
    find xs = find_address is4 ip_net ip_equal managed xs link s.address

    abbrev do_assign : Option AddressMessage → List Op × Option String
    do_assign o = assign is4 ip_net ip_equal managed k s link o

    abbrev new : AddressMessage
    new = read (address_message is4 ip_net ip_equal managed s link)

    abbrev again : List Op × Option String → List Op × Option String
    again p = do_assign (find (obey read same p.0 addrs))
