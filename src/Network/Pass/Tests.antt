-- ===== src/Network/Pass/Tests.antt =====
-- A pass over two addresses, of which one is torn down, where the kernel refuses one.
use tailscale_os.Base.{◌≡◌, ◌||◌, refl, true, not, none, some, List, [], ◌∷◌}
use tailscale_os.Network.{Link, Phase, running, tearing_down, Done, resolve_link_name}
use tailscale_os.Network.Address as A
use tailscale_os.Network.Pass.{Item, PassErrors, pass, address_pass}
use tailscale_os.Network.Pass.Guarded.{does_any, leading, all_finalized, pass_guards}

abbrev no_errors : PassErrors
no_errors = record {
  list_err = none;
  finalizer_err = λ id. none;
  links_err = none;
  kernel_err = none;
}

abbrev refusing : A.Answers
refusing = record {
  remove_err = λ a. none;
  add_err = λ a. some (A.refused "operation not permitted");
  release_err = none;
}

abbrev links : List Link
links = record { name = "eth0"; index = 2 } ∷ []

abbrev lease : A.AddressSpec
lease = record {
  address = record { addr = 10 ∷ 0 ∷ 0 ∷ 7 ∷ []; bits = 24 };
  link_name = "eth0";
  family = 2;
  scope = 0;
  flags = 128;
}

abbrev items : List (Item A.AddressSpec)
items =
    record { id = "dhcp4/eth1"; phase = tearing_down; spec = record lease { link_name = "eth1" } }
    ∷ record { id = "dhcp4/eth0"; phase = running; spec = lease }
    ∷ []

abbrev sync : Phase → A.AddressSpec → Done A.Op
sync ph s =
    A.sync_address (λ a. true) (λ p. (none, [])) (λ a b. true) (λ f. f) refusing links [] ph s

pass_guards_example :
    (not (does_any (pass no_errors sync items).0)
      || all_finalized items (leading (pass no_errors sync items).0))
    ≡ true
pass_guards_example = pass_guards no_errors sync items

pass_is_refused :
    (address_pass
      (λ a. true)
      (λ p. (none, []))
      (λ a b. true)
      (λ f. f)
      no_errors
      refusing
      links
      []
      items).1
    ≡ some "error adding address: operation not permitted"
unfolding address_pass pass A.sync_address resolve_link_name
pass_is_refused = refl
