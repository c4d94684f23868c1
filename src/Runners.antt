-- ===== src/Runners.antt =====
-- `runner.Runner` of internal/app/machined/pkg/system/runner/runner.go, with its implementations, and a
-- restarter over any of them.
pub mod Lively
pub mod Options
mod Tests
use tailscale_os.Base.{
  ℕ, Bool, true, false, Option, none, some, List, [], ◌∷◌, ◌++◌, String, if◌then◌else◌,
}
use tailscale_os.Restart.{
  RestartType, RunStatus, Recorded, Round, Progress, one_round, continue_with,
}
use tailscale_os.Process.{ProcessScript, run_process}
use tailscale_os.Goroutine.{Cause, canceled, aborted, because, GoroutineScript, run_goroutine}

-- What a runner tells its sink, and its result.
abbrev pub Ending : Type 0
Ending = List Recorded × (RunStatus × Option String)

-- `Runner`; a script is what a run meets.
pub record Runner : Type 1 where
  pub Script : Type 0
  pub run : Script → Ending

abbrev pub process_runner : String → Runner
process_runner name = record {
  Script = ProcessScript;
  run = λ s. let r = run_process name s in (r.told, (r.status, r.err));
}

abbrev cause_text : Option Cause → Option String
cause_text none = none
cause_text (some canceled) = some "context canceled"
cause_text (some aborted) = some "service aborted"
cause_text (some (because e)) = some e

abbrev pub goroutine_runner : Runner
goroutine_runner = record {
  Script = GoroutineScript;
  run = λ s. let r = run_goroutine s in (r.0, (r.1.0, cause_text r.1.1));
}

module _ (r : Runner) where
  -- A run of the wrapped runner, whether the context is done after it, and whether it ends before the
  -- restart interval does.
  abbrev pub Turn : Type 0
  Turn = r.Script × (Bool × Bool)

  abbrev pub round_of : Turn → Round
  round_of (s, (done_after, done_waiting)) =
      let e : Ending = r.run s in
      record { status = e.1.0; err = e.1.1; done_after = done_after; done_waiting = done_waiting }

  -- A round of `Run` of the restarter, with what the wrapped runner tells the same sink.
  unfoldable pub whole_round : String → RestartType → Turn → Progress
  unfolding one_round
  whole_round name t x =
      let p : Progress = one_round name t (round_of x) in ((r.run x.0).0 ++ p.0, p.1)

  unfoldable pub run_over : String → RestartType → List Turn → Progress
  unfolding whole_round
  run_over name t [] = ([], none)
  run_over name t (x ∷ xs) = continue_with (whole_round name t x) (run_over name t xs)
