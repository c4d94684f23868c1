-- ===== src/Services/Stop.antt =====
-- `stopServices` of system.go, with the conditions of service_events.go that it waits for: who is told to
-- stop, and when the wait for all of them to be down is over.
pub mod Crash
mod Tests
use tailscale_os.Base.{
  ℕ, Bool, true, false, not, ◌&&◌, ◌||◌, Option, none, some, List, [], ◌∷◌, String, if◌then◌else◌,
}
use tailscale_os.History.{ServiceState}
use tailscale_os.Health.{StateChange}
use tailscale_os.Runner.{World, down, update_state, health_update, subscribe, shutdown}
use tailscale_os.Runner.Lifecycle.{RunError, Ending, returns, hangs, crashes, judge, conclude}
use tailscale_os.Runner.Conditions.{Waited, satisfied, cancelled, still_waiting, wait_event}

-- What the goroutines of a service do to it: an update of its state, a verdict on its health, a report
-- of its health.
pub data Deed : Type 0 where
  moves : ℕ → ServiceState → String → Deed
  judges : ℕ → Bool → String → Deed
  reports : ℕ → StateChange → Deed

unfoldable pub deed : Deed → World → World
deed (moves now s m) w = update_state now s m w
deed (judges now b m) w = judge now b m w
deed (reports now c) w = health_update now c w

unfoldable pub deeds : List Deed → World → World
unfolding deed
deeds [] w = w
deeds (d ∷ ds) w = deeds ds (deed d w)

-- What is left of the goroutine of a service when it is told to stop. It has none, which is so before
-- `Start` and after the end; or `Run` does some deeds and does not return; or it does some deeds and
-- returns, and the goroutine sets the last state.
pub data Fate : Type 0 where
  idle : Fate
  stays : List Deed → Fate
  concludes : List Deed → ℕ → Option RunError → Fate

abbrev pub is_concluding : Fate → Bool
is_concluding (concludes ds now r) = true
is_concluding _ = false

-- A service that is stopped: its runner, the channel of the wait for it, and its goroutine.
pub record Stopping : Type 0 where
  pub world : World
  pub channel : ℕ
  pub fate : Fate

-- What becomes of a call: it waits or returns, or machined has crashed.
pub data Stopped : Type 0 where
  crashed : Stopped
  waited : Waited → Stopped

abbrev pub worse : Waited → Waited → Waited
worse still_waiting r = still_waiting
worse cancelled still_waiting = still_waiting
worse cancelled r = cancelled
worse satisfied r = r

-- A crash is one of the whole process.
abbrev pub beside : Stopped → Stopped → Stopped
beside crashed r = crashed
beside (waited a) crashed = crashed
beside (waited a) (waited b) = waited (worse a b)

module _ (capitalize : String → String) where
  -- The world once the goroutine has done its part, and whether machined has crashed by it.
  abbrev after_end : Ending RunError → World × Bool
  after_end (returns w r) = (w, false)
  after_end (hangs w) = (w, false)
  after_end (crashes w) = (w, true)

  unfoldable pub advance : Fate → World → World × Bool
  unfolding deeds conclude
  advance idle w = (w, false)
  advance (stays ds) w = (deeds ds w, false)
  advance (concludes ds now r) w = after_end (conclude capitalize now (deeds ds w) r)

  -- `Shutdown` of the service runner, and the condition that its service is down.
  unfoldable pub stop_one : Bool → Bool → Stopping → Stopped
  unfolding advance
  stop_one ctx_done prefers_ctx s =
      let told : World = shutdown s.world in
      if (advance s.fate (subscribe down s.channel told)).1
      then crashed
      else waited
          (wait_event (down ∷ []) s.channel (λ w. (advance s.fate w).0) ctx_done prefers_ctx told).0

  -- `stopServices`: the conditions are waited for at the same time, until each has returned.
  unfoldable pub stop_services : Bool → Bool → List Stopping → Stopped
  unfolding stop_one
  stop_services ctx_done prefers_ctx [] = waited satisfied
  stop_services ctx_done prefers_ctx (s ∷ ss) =
      beside (stop_one ctx_done prefers_ctx s) (stop_services ctx_done prefers_ctx ss)
