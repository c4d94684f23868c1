-- ===== src/Runner/Lifecycle.antt =====
-- `waitFor`, `Run` and `run` of service_runner.go, and the goroutine of `Start` in system.go that calls
-- `Run`: one life of a service from its start to its last state. What the service, its conditions, its
-- runner and its health check do is a script, in the order in which the code meets it. An update of the
-- state and a report of the health are one step each, with what they publish after the lock: the order in
-- which two calls at the same time publish is not modelled here.
pub mod Outcome
mod Tests
use tailscale_os.Base.{
  ℕ, Bool, true, false, not, ◌&&◌, ◌||◌, Option, none, some, List, [], ◌∷◌, String, join, str_eq,
  if◌then◌else◌, ◌==◌,
}
use tailscale_os.Health.{
  StateChange, HealthState, update_health, subscribe_health, unsubscribe_health,
}
use tailscale_os.Chan.{Store}
use tailscale_os.History.{
  ServiceState, starting, waiting, preparing, running, finished, failed, skipped,
}
use tailscale_os.Runner.{
  ServiceRunner, World, update_state, record_state, health_update, is_running,
}

-- What `condition.String()` reads at a tick.
pub record Tick : Type 0 where
  pub at : ℕ
  pub description : String

-- A condition that is waited for: its first description, what it reads at each tick until `Wait`
-- returns, and what that returns (`none` is nil).
pub record Waiting : Type 0 where
  pub at : ℕ
  pub description : String
  pub ticks : List Tick
  pub err : Option String

unfoldable pub announce : ℕ → String → World → World
announce now d w = update_state now waiting (join "Waiting for " d) w

abbrev pub is_news : String → String → Bool
is_news new old = not (str_eq new old) && not (str_eq new "")

-- The `for` loop of `waitFor`.
unfoldable pub wait_loop : String → List Tick → World → World
wait_loop d [] w = w
wait_loop d (t ∷ ts) w =
    let news : Bool = is_news t.description d in
    wait_loop (if news then t.description else d) ts
      (if news then announce t.at t.description w else w)

unfoldable pub wait_for : Waiting → World → World
wait_for c w = wait_loop c.description c.ticks (announce c.at c.description w)

-- What happens while the runner runs: a call of its event sink, a verdict of the health check, a
-- health change that `run` takes from its channel.
pub data Happening : Type 0 where
  sinks : ℕ → ServiceState → String → Happening
  judges : ℕ → Bool → String → Happening
  reports : ℕ → StateChange → Happening

abbrev pub with_health : World → HealthState × Store StateChange → World
with_health w (h, st) = record w {
  runner = record (w.runner) { health_state = h };
  health_chans = st;
}

abbrev pub judge : ℕ → Bool → String → World → World
judge now b m w = with_health w (update_health now b m w.runner.health_state w.health_chans)

-- The sink of `run`: away from `running` a health-checked service is unhealthy.
unfoldable pub sink : ℕ → ServiceState → String → World → World
sink now s m w =
    let w' : World = update_state now s m w in
    if w.runner.is_healthchecked && not (is_running s)
    then judge now false "service not running" w'
    else w'

unfoldable pub happen : Happening → World → World
happen (sinks now s m) w = sink now s m w
happen (judges now b m) w = judge now b m w
happen (reports now c) w = health_update now c w

unfoldable pub happen_all : List Happening → World → World
happen_all [] w = w
happen_all (h ∷ hs) w = happen_all hs (happen h w)

-- One use of a runner. `cancelled` says that the context was done before `Run` of the runner gave its
-- result `err`, and `stopped` that a stop request comes at some time after that.
pub record RunnerScript : Type 0 where
  pub open_err : Option String
  pub happenings : List Happening
  pub cancelled : Bool
  pub err : Option String
  pub stopped : Bool

-- `run` returns an error or nil, or waits for its health goroutines; or a panic ends machined.
pub data Ending (E : Type 0) : Type 0 where
  returns : World → Option E → Ending E
  hangs : World → Ending E
  crashes : World → Ending E

abbrev watch_health : ℕ → World → World
watch_health hc w = record w {
  runner = record (w.runner) { health_state = subscribe_health hc w.runner.health_state };
}

abbrev leave_health : ℕ → World → World
leave_health hc w = record w {
  runner = record (w.runner) { health_state = unsubscribe_health hc w.runner.health_state };
}

-- The world once the runner has ended and the health channel is given up.
unfoldable pub ended : ℕ → RunnerScript → World → World
ended hc r w =
    let watched : Bool = w.runner.is_healthchecked in
    let w' : World = happen_all r.happenings (if watched then watch_health hc w else w) in
    if watched then leave_health hc w' else w'

-- A result that comes after the end of the context is dropped.
unfoldable pub run_result : RunnerScript → Option String
run_result r =
    if r.cancelled
    then none
    else (elim (r.err) [ none ↦ none | some e ↦ some (join "error running service: " e) ])

-- `healthWg` after the two `Add`s: the goroutine of `health.Run` and the one that takes the changes.
abbrev health_goroutines : Bool → ℕ
health_goroutines true = 2
health_goroutines false = 0

-- Both loop until the context is done, which lets them call `Done`. It is done if it was cancelled before the
-- runner gave its result; after that only a stop request cancels it, for `Run` does so itself only once
-- `run` has returned.
abbrev counted_after : RunnerScript → ℕ → ℕ
counted_after r wg = if r.cancelled || r.stopped then 0 else wg

-- The deferred `healthWg.Wait()` ends if the counter of the group comes to zero.
unfoldable pub run_runner : ℕ → RunnerScript → World → Ending String
run_runner hc r w = elim (r.open_err) [
  | some e ↦ returns w (some (join "error opening runner: " e))
  | none ↦
      if counted_after r (health_goroutines w.runner.is_healthchecked) == 0
      then returns (ended hc r w) (run_result r)
      else hangs (ended hc r w)
]

-- What `service.Runner` gives: an error, nil, or a runner.
pub data Made : Type 0 where
  no_runner : String → Made
  absent : Made
  present : RunnerScript → Made

-- The errors of `Run`.
pub data RunError : Type 0 where
  skip : RunError
  failure : String → RunError

-- A condition is there if the service has dependencies or a condition of its own. `gone` is
-- `ctx.Err() != nil` where a stage has failed.
pub record Script : Type 0 where
  pub at : ℕ
  pub condition : Option Waiting
  pub gone_waiting : Bool
  pub pre_err : Option String
  pub gone_pre : Bool
  pub made : Made
  pub post_err : Option String

-- The deferred call of `PostFunc`.
unfoldable pub post_stage : Script → World → World
post_stage s w = elim (s.post_err) [
  | none ↦ w
  | some e ↦ update_state s.at failed (join "Failed to run post stage: " e) w
]

abbrev pub after_run : Script → Ending String → Ending RunError
after_run s (hangs w) = hangs w
after_run s (crashes w) = crashes w
after_run s (returns w none) = returns (post_stage s w) none
after_run s (returns w (some e)) =
    returns (post_stage s w) (some (failure (join "failed running service: " e)))

unfoldable pub runner_stage : ℕ → Script → World → Ending RunError
runner_stage hc s w =
    let w₁ : World = update_state s.at preparing "Creating service runner" w in
    elim (s.made) [
      | no_runner e ↦ returns w₁ (some (failure (join "failed to create runner: " e)))
      | absent ↦ returns (post_stage s w₁) (some skip)
      | present r ↦ after_run s (run_runner hc r w₁)
    ]

unfoldable pub pre_stage : ℕ → Script → World → Ending RunError
pre_stage hc s w =
    let w₁ : World = update_state s.at preparing "Running pre state" w in
    elim (s.pre_err) [
      | none ↦ runner_stage hc s w₁
      | some e ↦
          returns w₁
            (if s.gone_pre then none else some (failure (join "failed to run pre stage: " e)))
    ]

unfoldable pub condition_stage : ℕ → Script → World → Ending RunError
condition_stage hc s w = elim (s.condition) [
  | none ↦ pre_stage hc s w
  | some c ↦
      let w₁ : World = wait_for c w in
      elim (c.err) [
        | none ↦ pre_stage hc s w₁
        | some e ↦
            returns w₁
              (if s.gone_waiting then none else some (failure (join "condition failed: " e)))
      ]
]

-- `Run`
unfoldable pub run : ℕ → Script → World → Ending RunError
unfolding condition_stage pre_stage runner_stage
run hc s w = condition_stage hc s (update_state s.at starting "Starting service" w)

-- The state in which a result of `Run` leaves the service.
abbrev pub final_state : Option RunError → ServiceState
final_state none = finished
final_state (some skip) = skipped
final_state (some (failure m)) = failed

-- The end of the goroutine in `Start`. `capitalize` is `strings.ToUpper(msg[:1]) + msg[1:]`.
module _ (capitalize : String → String) where
  abbrev pub final_message : Option RunError → String
  final_message none = "Service finished successfully"
  final_message (some skip) = "Service skipped"
  final_message (some (failure m)) = if str_eq m "" then m else capitalize m

  -- The last `UpdateState` has a nil context: where there is a runtime, `Publish` asks that for a value and
  -- panics, after the state was recorded and before anyone is told.
  unfoldable pub conclude : ℕ → World → Option RunError → Ending RunError
  unfolding record_state
  conclude now w r =
      if w.runner.has_runtime
      then crashes (record_state now (final_state r) (final_message r) w)
      else returns (update_state now (final_state r) (final_message r) w) r

  unfoldable pub supervise : ℕ → ℕ → Script → World → Ending RunError
  supervise hc now s w = elim (run hc s w) [
    | hangs w' ↦ hangs w'
    | crashes w' ↦ crashes w'
    | returns w' r ↦ conclude now w' r
  ]
