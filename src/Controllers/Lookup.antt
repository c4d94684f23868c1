-- ===== src/Controllers/Lookup.antt =====
-- controllers/v1alpha1/service.go: what an event does to the resource of one service.
use tailscale_os.Base.{
  ◌≡◌, true, false, some, none, String, ◌==◌, str_eq, lookup, lookup-insert, lookup-delete,
  if◌then◌else◌, arith,
}
use tailscale_os.Base.{◌⊎◌, inl, inr, refl, lookup-insert_self, lookup-delete_self}
use tailscale_os.Health.{is_healthy, is_unknown, as_proto}
use tailscale_os.Runner.{is_running}
use tailscale_os.History.{
  ServiceStateEvent, ServiceState, ServiceEvent, event_as_proto, code, running, initialized,
  preparing, waiting, stopping, finished, failed, skipped, starting,
}
use tailscale_os.Controllers.Services.{ServiceSpec, Resources, running_action, handle}

abbrev pub spec_of : ServiceStateEvent → ServiceSpec
spec_of e = record { running = true; healthy = e.health.healthy; unknown = e.health.unknown }

module _ (id : String) (e : ServiceStateEvent) where
  pub lookup-handle :
      (rs : Resources)
      → lookup id (handle (some e) true rs) ≡ (
          if str_eq id e.service
          then (if e.action == running_action then some (spec_of e) else none)
          else lookup id rs)
  unfolding handle
  lookup-handle rs =
      ground (arith, lookup-insert e.service id (spec_of e) rs, lookup-delete e.service id rs)

state_cases :
    (s : ServiceState)
    → ((is_running s ≡ true) × ((code s == running_action) ≡ true))
      ⊎ ((is_running s ≡ false) × ((code s == running_action) ≡ false))
unfolding is_running code
state_cases running = inl (refl, refl)
state_cases initialized = inr (refl, refl)
state_cases preparing = inr (refl, refl)
state_cases waiting = inr (refl, refl)
state_cases stopping = inr (refl, refl)
state_cases finished = inr (refl, refl)
state_cases failed = inr (refl, refl)
state_cases skipped = inr (refl, refl)
state_cases starting = inr (refl, refl)

-- A published event sets its own resource by its state alone.
pub lookup-handle_own :
    (id : String) (e : ServiceEvent) (rs : Resources)
    → lookup id (handle (some (event_as_proto id e)) true rs) ≡ (
        if is_running e.state
        then some (record {
          running = true;
          healthy = is_healthy e.health;
          unknown = is_unknown e.health;
        })
        else none)
unfolding handle event_as_proto is_running as_proto
lookup-handle_own id e rs = elim (state_cases e.state) [
  | inl (run, act) ↦ rw (run, act) (lookup-insert_self id _ rs)
  | inr (run, act) ↦ rw (run, act) (lookup-delete_self id rs)
]
