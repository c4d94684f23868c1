-- ===== src/Network/Pass.antt =====
-- controllers/network/address_spec.go and route_spec.go: the pass of `Run` over the resources, which is
-- the same for both.
pub mod Guarded
mod Tests
use tailscale_os.Base.{
  ℕ, Bool, true, false, not, ◌&&◌, ◌||◌, Option, none, some, List, [], ◌∷◌, ◌++◌, String, join,
  str_eq, if◌then◌else◌,
}
use tailscale_os.Network.{Ip, Prefix, Link, Phase, running, tearing_down, Done, then_do}
use tailscale_os.Network.Address as A
use tailscale_os.Network.Route as R

pub record Item (S : Type 0) : Type 0 where
  pub id : String
  pub phase : Phase
  pub spec : S

-- The errors of the three lists, and of the addition of a finalizer.
pub record PassErrors : Type 0 where
  pub list_err : Option String
  pub finalizer_err : String → Option String
  pub links_err : Option String
  pub kernel_err : Option String

-- What a pass asks for: a finalizer, or what the synchronisation of a resource asks for.
pub data Call (O : Type 0) : Type 0 where
  finalizes : String → Call O
  does : O → Call O

abbrev pub is_live : Phase → Bool
is_live running = true
is_live tearing_down = false

module _ {O : Type 0} where
  unfoldable pub all_does : List O → List (Call O)
  all_does [] = []
  all_does (o ∷ os) = does o ∷ all_does os

  abbrev pub then_sync : Done O → Done (Call O) → Done (Call O)
  then_sync (os, none) rest = (all_does os ++ rest.0, rest.1)
  then_sync (os, some e) rest = (all_does os, some e)

  abbrev pub listed : Option String → String → Done (Call O) → Done (Call O)
  listed none what rest = rest
  listed (some e) what rest = ([], some (join what e))

  abbrev pub then_calls : Done (Call O) → Done (Call O) → Done (Call O)
  then_calls (cs, none) rest = (cs ++ rest.0, rest.1)
  then_calls (cs, some e) rest = (cs, some e)

module _ {S O : Type 0} where
  -- The first loop.
  unfoldable pub add_finalizers : PassErrors → List (Item S) → Done (Call O)
  add_finalizers e [] = ([], none)
  add_finalizers e (i ∷ is) =
      let rest : Done (Call O) = add_finalizers e is in
      if is_live i.phase
      then then_do (finalizes i.id) (e.finalizer_err i.id) "error adding finalizer: " rest
      else rest

  -- The second loop, which ends with the first error.
  unfoldable pub sync_all : (Phase → S → Done O) → List (Item S) → Done (Call O)
  unfolding all_does
  sync_all sync [] = ([], none)
  sync_all sync (i ∷ is) = then_sync (sync i.phase i.spec) (sync_all sync is)

  -- The pass after an event. The texts of the errors are less what is listed.
  unfoldable pub pass : PassErrors → (Phase → S → Done O) → List (Item S) → Done (Call O)
  unfolding add_finalizers sync_all
  pass e sync items = listed e.list_err "error listing source network resources: " (
      then_calls (add_finalizers e items) (
        listed e.links_err "error listing links: "
          (listed e.kernel_err "error listing what the kernel has: " (sync_all sync items))))

-- The passes of the two controllers, with what they have read of the kernel.
module _ (is4 : Ip → Bool) (ip_net : Prefix → Option Ip × Ip) (ip_equal : Ip → Ip → Bool)
    (managed : ℕ → ℕ) where
  unfoldable pub address_pass :
      PassErrors
      → A.Answers
      → List Link
      → List A.AddressMessage
      → List (Item A.AddressSpec)
      → Done (Call A.Op)
  unfolding pass A.sync_address
  address_pass e k links addrs items =
      pass e (λ ph s. A.sync_address is4 ip_net ip_equal managed k links addrs ph s) items

module _ (ip_equal : Ip → Ip → Bool) (flags_equal : ℕ → ℕ → Bool) (inet6 : ℕ) where
  unfoldable pub route_pass :
      PassErrors
      → R.Answers
      → List Link
      → List R.RouteMessage
      → List (Item R.RouteSpec)
      → Done (Call R.Op)
  unfolding pass R.sync_route
  route_pass e k links routes items =
      pass e (λ ph s. R.sync_route ip_equal flags_equal inet6 k links routes ph s) items
