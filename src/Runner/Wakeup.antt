-- ===== src/Runner/Wakeup.antt =====
-- The goroutines around one service interleaved: state updates, notifications that are under way,
-- health verdicts, and waiters that come and go. The notifications are made after the lock is given
-- up, so another step may come between a state and the notices of it.
pub mod Frame
pub mod Owed
pub mod Notices
pub mod Verdicts
pub mod Waiters
pub mod Reports
pub mod Safe
use tailscale_os.Base.{
  ℕ, zero, suc, ◌+◌, ◌-◌, ◌≤◌, ◌<◌, ◌≡◌, ◌≢◌, refl, sym, ap, ◌∙◌, ◌⊎◌, inl, inr, Bool, true, false,
  not, ◌&&◌, ◌||◌, Option, none, some, List, [], ◌∷◌, ◌++◌, String, length, count, count-append,
  ◌==◌, leb, ltb, if◌then◌else◌, arith, Bool-cases, Option-cases,
}
use tailscale_os.Slice.{remove_all}
use tailscale_os.Slice.Removal.{count-remove_all}
use tailscale_os.Chan.{
  Chan, Store, update, receive, send_all, try_send, send_all_wakes, send_all-keeps, cap-send_all,
  cap-try_send, length-try_send,
}
use tailscale_os.Health.{
  StateChange, HealthState, Status, is_healthy, update_health, init_health, changes,
}
use tailscale_os.Health.Notify.{update_health_quiet, update_health_wakes}
use tailscale_os.History.{ServiceState}
use tailscale_os.Runner.State.{
  same, eq_of_same, subscribers-set, set_subscribers-state, in_state-set, record_health_frame,
  subscribers-record_health, in_state-record_health,
}
use tailscale_os.Runner.{
  Signal, StateEvent, up, down, done, ServiceRunner, World, in_state, subscribers, set_subscribers,
  notify_event, subscribe, unsubscribe, record_state, state_event, publish_event, record_health,
  health_event, is_running,
}

-- How many notifications of each kind are under way, in any goroutine.
pub record Pending : Type 0 where
  pub ups : ℕ
  pub downs : ℕ
  pub dones : ℕ

abbrev pub pending : StateEvent → Pending → ℕ
pending up p = p.ups
pending down p = p.downs
pending done p = p.dones

abbrev pub one_if : Bool → ℕ
one_if true = 1
one_if false = 0

pub record System : Type 0 where
  pub world : World
  pub under_way : Pending

-- What a goroutine may do next. `records` is `UpdateState` up to its notifications, `notifies` is one
-- of those, `judges` is `Update` of the health state, `reports` is `healthUpdate` up to its
-- notification, for the next change in the channel, and `restarts_health` is `Init`.
pub data Act : Type 0 where
  records : ℕ → ServiceState → String → Act
  notifies : StateEvent → Act
  judges : ℕ → Bool → String → Act
  reports : ℕ → Act
  subscribes unsubscribes : StateEvent → ℕ → Act
  restarts_health : ℕ → Act

abbrev pub less : StateEvent → Pending → Pending
less up p = record p { ups = p.ups - 1 }
less down p = record p { downs = p.downs - 1 }
less done p = record p { dones = p.dones - 1 }

abbrev pub set_health : World → HealthState × Store StateChange → World
set_health w (h, st) = record w {
  runner = record (w.runner) { health_state = h };
  health_chans = st;
}

-- `hc` is the channel that `run` subscribes to the health state.
module _ (hc : ℕ) where
  unfoldable pub act : Act → System → System
  act (records now s m) x =
      let w : World = record_state now s m x.world in
      record {
        world = w;
        under_way = record {
          ups = one_if (in_state up w.runner) + x.under_way.ups;
          downs = one_if (in_state down w.runner) + x.under_way.downs;
          dones = one_if (in_state done w.runner) + x.under_way.dones;
        };
      }
  act (notifies ev) x =
      if ltb 0 (pending ev x.under_way)
      then record { world = notify_event ev x.world; under_way = less ev x.under_way }
      else x
  act (judges now b m) x = record x {
    world =
        set_health x.world (update_health now b m x.world.runner.health_state x.world.health_chans);
  }
  act (reports now) x = elim (receive hc x.world.health_chans) [
    | none ↦ x
    | some (change, st) ↦
        let w : World = record_health now change (record (x.world) { health_chans = st }) in
        record {
          world = w;
          under_way = record (x.under_way) {
            ups = one_if (is_running w.runner.state && in_state up w.runner) + x.under_way.ups;
          };
        }
  ]
  act (subscribes ev ch) x = record x { world = subscribe ev ch x.world }
  act (unsubscribes ev ch) x = record x { world = unsubscribe ev ch x.world }
  act (restarts_health now) x = record x {
    world = set_health x.world (init_health now x.world.runner.health_state, x.world.health_chans);
  }

  unfoldable pub run_acts : List Act → System → System
  run_acts [] x = x
  run_acts (a ∷ acts) x = run_acts acts (act a x)
