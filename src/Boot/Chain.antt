-- ===== src/Boot/Chain.antt =====
-- From the health check of udevd to the start of apid, over system/services/udevd.go, system/health,
-- system/service_runner.go, controllers/v1alpha1/service.go and controllers/runtime: the goroutines that
-- pass the verdict on, in any order.
pub mod Quiet
pub mod Safe
pub mod Starts
mod Tests
use tailscale_os.Base.{
  ℕ, suc, Bool, true, false, Option, none, some, List, [], ◌∷◌, ◌++◌, String, str_eq, get_elem?,
  lookup, if◌then◌else◌, not,
}
use tailscale_os.Chan.{make, Store, receive}
use tailscale_os.Health as H
use tailscale_os.Health.{StateChange, HealthState, record_round}
use tailscale_os.History.{ServiceState, ServiceStateEvent}
use tailscale_os.Runner.{World, new_service_runner, health_update}
use tailscale_os.Runner.Lifecycle.{sink, with_health}
use tailscale_os.Controllers.Services.{ServiceSpec, Resources, handle}
use tailscale_os.Udevd as D
use tailscale_os.Udevd.{CheckScript, Command, Checked, health_check}
use tailscale_os.Boot.{Udevd}
use tailscale_os.Boot.Order.{Machine, Act, resource_event, powered_on, act}

-- The service `udevd` and the commands that its checks have run; its runner; the resources of services,
-- with how many events of udevd `ServiceController` has handled; and the machine of the other controllers.
pub record Chain : Type 0 where
  pub daemon : D.Udevd
  pub commands : List Command
  pub world : World
  pub resources : Resources
  pub handled : ℕ
  pub machine : Machine

-- A check of the health of udevd, at a time; a call of the event sink of its runner; a change of the
-- subscribers of its health; a check loop that begins anew; a change of the health that `run` takes from
-- its channel; the next event of udevd, and an event of any service, at `ServiceController`; and
-- what happens at the other controllers and in the singleton.
pub data Turn : Type 0 where
  checks : ℕ → CheckScript → Turn
  sinks : ℕ → ServiceState → String → Turn
  subscribes unsubscribes : ℕ → Turn
  restarts : ℕ → Turn
  takes : ℕ → ℕ → Turn
  next_event : Turn
  other_event : Option ServiceStateEvent → Turn
  acts : Act → Turn

abbrev pub health_of : World → HealthState × Store StateChange
health_of w = (w.runner.health_state, w.health_chans)

abbrev pub with_state : HealthState → World → World
with_state h w = with_health w (h, w.health_chans)

-- The verdict of a check.
abbrev pub judged : ℕ → Option String → World → World
judged now err w =
    with_health w
      (record_round (record { at = now; err = err }) w.runner.health_state w.health_chans)

abbrev pub taken : ℕ → Option (StateChange × Store StateChange) → World → World
taken now none w = w
taken now (some (c, st)) w = health_update now c (record w { health_chans = st })

-- What `DeviceStatusController` reads of the resource of udevd.
abbrev pub seen_as : Option ServiceSpec → Option Udevd
seen_as none = none
seen_as (some s) = some (record { running = s.running; healthy = s.healthy })

abbrev pub observed : Resources → Machine → Machine
observed rs m = act (resource_event (seen_as (lookup "udevd" rs))) m

abbrev pub with_resources : Resources → Chain → Chain
with_resources rs x = record x { resources = rs; machine = observed rs x.machine }

abbrev pub handle_next : Option ServiceStateEvent → Chain → Chain
handle_next none x = x
handle_next (some e) x =
    with_resources (handle (some e) true x.resources) (record x { handled = suc x.handled })

-- An event that is of udevd comes from its runner alone.
abbrev pub is_foreign : Option ServiceStateEvent → Bool
is_foreign none = true
is_foreign (some e) = not (str_eq "udevd" e.service)

-- The resource of udevd changes by `ServiceController` alone.
abbrev pub act_on : Act → Machine → Machine
act_on (resource_event u) m = m
act_on a m = act a m

unfoldable pub turn : Turn → Chain → Chain
turn (checks now s) x =
    let r : Checked = health_check s x.daemon in
    record x { daemon = r.1.0; commands = x.commands ++ r.0; world = judged now r.1.1 x.world }
turn (sinks now s m) x = record x { world = sink now s m x.world }
turn (subscribes ch) x = record x {
  world = with_state (H.subscribe_health ch x.world.runner.health_state) x.world;
}
turn (unsubscribes ch) x = record x {
  world = with_state (H.unsubscribe_health ch x.world.runner.health_state) x.world;
}
turn (restarts now) x = record x {
  world = with_state (H.init_health now x.world.runner.health_state) x.world;
}
turn (takes now ch) x = record x { world = taken now (receive ch x.world.health_chans) x.world }
turn next_event x = handle_next (get_elem? x.world.published x.handled) x
turn (other_event e) x = if is_foreign e then with_resources (handle e true x.resources) x else x
turn (acts a) x = record x { machine = act_on a x.machine }

unfoldable pub run : List Turn → Chain → Chain
unfolding turn
run [] x = x
run (t ∷ ts) x = run ts (turn t x)

-- Each channel has the capacity that it is made with.
abbrev pub first_world : (ℕ → ℕ) → World
first_world caps = record {
  runner = new_service_runner "udevd" true true;
  chans = λ ch. make 1;
  health_chans = λ ch. make (caps ch);
  published = [];
}

abbrev pub power_on : ℕ → (ℕ → ℕ) → Chain
power_on extra caps = record {
  daemon = D.new_udevd extra;
  commands = [];
  world = first_world caps;
  resources = [];
  handled = 0;
  machine = powered_on;
}
