-- ===== src/Controllers/Services.antt =====
-- controllers/v1alpha1/service.go: the resource of a service follows the events of its runner.
use tailscale_os.Base.{
  ℕ, Bool, true, false, Option, none, some, List, [], ◌∷◌, String, insert, delete, ◌==◌,
  if◌then◌else◌,
}
use tailscale_os.History.{ServiceStateEvent}

-- `v1alpha1.ServiceSpec`
pub record ServiceSpec : Type 0 where
  pub running : Bool
  pub healthy : Bool
  pub unknown : Bool

-- The resources of type `Services.v1alpha1.tsos.dev`, by identifier.
abbrev pub Resources : Type 0
Resources = List (String × ServiceSpec)

-- `machine.ServiceStateEvent_RUNNING`
abbrev pub running_action : ℕ
running_action = 3

-- One event: `none` is a payload that cannot be decoded, and `written` says whether the write to the
-- resource store succeeds, for an error is only logged.
unfoldable pub handle : Option ServiceStateEvent → Bool → Resources → Resources
handle none written rs = rs
handle (some e) false rs = rs
handle (some e) true rs =
    if e.action == running_action
    then insert e.service
        (record { running = true; healthy = e.health.healthy; unknown = e.health.unknown }) rs
    else delete e.service rs

-- The loop of `Run`, where every payload decodes and every write succeeds.
unfoldable pub replay : List ServiceStateEvent → Resources → Resources
unfolding handle
replay [] rs = rs
replay (e ∷ es) rs = replay es (handle (some e) true rs)
