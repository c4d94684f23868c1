-- ===== src/Runner.antt =====
-- internal/app/machined/pkg/system/service_runner.go: the state of one service, its event history, its
-- health and the goroutines that wait for it. A section under `svcrunner.mu` is one step.
pub mod State
pub mod Update
pub mod Wakeup
pub mod Lifecycle
pub mod Conditions
mod Tests
use tailscale_os.Base.{
  ℕ, suc, Bool, true, false, not, ◌&&◌, ◌||◌, Option, none, some, List, [], ◌∷◌, ◌++◌, String, join,
  if◌then◌else◌,
}
use tailscale_os.Base.Int.{ℤ}
use tailscale_os.Slice.{remove_all}
use tailscale_os.Chan.{Chan, Store, make, update, try_send, send_all}
use tailscale_os.Health.{
  Status, zero_status, StateChange, HealthState, is_healthy, update_health, subscribe_health,
  unsubscribe_health,
}
use tailscale_os.History.{
  ServiceState, initialized, running, finished, failed, skipped, waiting, ServiceEvent,
  ServiceEvents, ServiceStateEvent, no_events, push, get, event_as_proto,
}

abbrev pub Signal : Type 0
Signal = Unit {0}

-- `StateEvent` is a text with these three constants. `inStateLocked` panics on any other, and no code
-- makes one.
pub data StateEvent : Type 0 where
  up down done : StateEvent

-- `is_healthchecked` says whether the service has the methods of `HealthcheckedService`, and
-- `has_runtime` whether `runtime` is set. The map of subscribers has a list for each event.
pub record ServiceRunner : Type 0 where
  pub id : String
  pub is_healthchecked : Bool
  pub has_runtime : Bool
  pub state : ServiceState
  pub events : ServiceEvents
  pub health_state : HealthState
  pub up_subscribers : List ℕ
  pub down_subscribers : List ℕ
  pub done_subscribers : List ℕ
  pub stop_ch : Chan Signal

unfoldable pub new_service_runner : String → Bool → Bool → ServiceRunner
new_service_runner id healthchecked has_runtime = record {
  id = id;
  is_healthchecked = healthchecked;
  has_runtime = has_runtime;
  state = initialized;
  events = no_events;
  health_state = record { status = zero_status; subscribers = [] };
  up_subscribers = [];
  down_subscribers = [];
  done_subscribers = [];
  stop_ch = make 1;
}

-- A runner with the channels of its waiters, those of its health subscribers, and what it published on
-- the event stream of the machine, oldest first.
pub record World : Type 0 where
  pub runner : ServiceRunner
  pub chans : Store Signal
  pub health_chans : Store StateChange
  pub published : List ServiceStateEvent

-- `inStateLocked`
unfoldable pub in_state : StateEvent → ServiceRunner → Bool
unfolding is_healthy
in_state up r = elim (r.state) [
  | skipped ↦ true
  | running ↦ not r.is_healthchecked || is_healthy r.health_state.status
  | _ ↦ false
]
in_state down r = elim (r.state) [ failed ↦ true | finished ↦ true | skipped ↦ true | _ ↦ false ]
in_state done r = elim (r.state) [ finished ↦ true | _ ↦ false ]

unfoldable pub subscribers : StateEvent → ServiceRunner → List ℕ
subscribers up r = r.up_subscribers
subscribers down r = r.down_subscribers
subscribers done r = r.done_subscribers

unfoldable pub set_subscribers : StateEvent → List ℕ → ServiceRunner → ServiceRunner
set_subscribers up chs r = record r { up_subscribers = chs }
set_subscribers down chs r = record r { down_subscribers = chs }
set_subscribers done chs r = record r { done_subscribers = chs }

unfoldable pub notify_event : StateEvent → World → World
notify_event ev w = record w { chans = send_all tt (subscribers ev w.runner) w.chans }

-- `Subscribe`: at once where the event holds already.
unfoldable pub subscribe : StateEvent → ℕ → World → World
subscribe ev ch w =
    if in_state ev w.runner
    then record w { chans = update w.chans ch (try_send tt (w.chans ch)) }
    else record w { runner = set_subscribers ev (subscribers ev w.runner ++ (ch ∷ [])) w.runner }

unfoldable pub unsubscribe : StateEvent → ℕ → World → World
unsubscribe ev ch w = record w {
  runner = set_subscribers ev (remove_all ch (subscribers ev w.runner)) w.runner;
}

-- The event that `UpdateState` makes, and the part of it under the lock.
unfoldable pub state_event : ℕ → ServiceState → String → ServiceRunner → ServiceEvent
state_event now s message r = record {
  message = message;
  state = s;
  health = (elim s [ running ↦ r.health_state.status | _ ↦ zero_status ]);
  timestamp = now;
}

unfoldable pub record_state : ℕ → ServiceState → String → World → World
unfolding state_event
record_state now s message w = record w {
  runner = record (w.runner) {
    state = s;
    events = push (state_event now s message w.runner) w.runner.events;
  };
}

unfoldable pub publish_event : ServiceEvent → World → World
publish_event e w =
    if w.runner.has_runtime
    then record w { published = w.published ++ (event_as_proto w.runner.id e ∷ []) }
    else w

unfoldable pub notify_if : Bool → StateEvent → World → World
notify_if b ev w = if b then notify_event ev w else w

-- `UpdateState` of a context that is not nil. The three tests are made under the lock, before anyone is told.
unfoldable pub update_state : ℕ → ServiceState → String → World → World
unfolding record_state
update_state now s message w =
    let w₁ : World = record_state now s message w in
    let w₂ : World = publish_event (state_event now s message w.runner) w₁ in
    let w₃ : World = notify_if (in_state up w₁.runner) up w₂ in
    let w₄ : World = notify_if (in_state down w₁.runner) down w₃ in
    notify_if (in_state done w₁.runner) done w₄

-- The part of `healthUpdate` under the lock, where the service is running. The change that is taken
-- from the channel was made by `Update`, so its new verdict is set.
unfoldable pub health_event : ℕ → StateChange → ServiceRunner → ServiceEvent
unfolding is_healthy
health_event now change r = record {
  message =
      (if is_healthy change.new
        then "Health check successful"
        else join "Health check failed: " change.new.last_message);
  state = r.state;
  health = change.new;
  timestamp = now;
}

unfoldable pub is_running : ServiceState → Bool
is_running running = true
is_running _ = false

abbrev pub push_health : ℕ → StateChange → World → World
push_health now change w = record w {
  runner = record (w.runner) { events = push (health_event now change w.runner) w.runner.events };
}

unfoldable pub record_health : ℕ → StateChange → World → World
unfolding is_running
record_health now change w = if is_running w.runner.state then push_health now change w else w

-- `healthUpdate`: here the waiters are told before the event is published.
unfoldable pub health_update : ℕ → StateChange → World → World
health_update now change w =
    let w₁ : World = push_health now change w in
    let w₂ : World = notify_if (in_state up w₁.runner) up w₁ in
    if is_running w.runner.state then publish_event (health_event now change w.runner) w₂ else w

-- `Shutdown`: a request that is pending already is enough.
unfoldable pub shutdown : World → World
shutdown w = record w { runner = record (w.runner) { stop_ch = try_send tt w.runner.stop_ch } }

unfoldable pub get_event_history : World → ℤ → List ServiceEvent
get_event_history w count = get w.runner.events count
