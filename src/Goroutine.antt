-- ===== src/Goroutine.antt =====
-- internal/app/machined/pkg/system/runner/goroutine/goroutine.go: a service that runs in machined itself.
use tailscale_os.Base.{
  ℕ, Bool, true, Option, none, some, List, [], ◌∷◌, String, join, if◌then◌else◌,
}
use tailscale_os.Base.Int.{pos}
use tailscale_os.History.{running, stopping}
use tailscale_os.Restart.{RunStatus, Recorded}

-- An error: that of a cancelled context, `ErrAborted`, or another.
pub data Cause : Type 0 where
  canceled aborted : Cause
  because : String → Cause

pub data MainResult : Type 0 where
  panics : String → MainResult
  returns : Option Cause → MainResult

-- What the log, the function of the service and the context do: `exits_first` says that the function is over
-- before the context is done, and `exits_in_time` that it then is before the timeout.
pub record GoroutineScript : Type 0 where
  pub writer_err : Option String
  pub main : MainResult
  pub close_err : Option Cause
  pub exits_first : Bool
  pub exits_in_time : Bool

-- The error of a function that has not panicked.
abbrev main_error : Option Cause → Option Cause → Option Cause
main_error (some canceled) close_err = close_err
main_error r close_err = r

abbrev recovered : MainResult → Option Cause → Option Cause
recovered (panics m) close_err = some (because (join "panic in service: " m))
recovered (returns r) close_err = main_error r close_err

-- `wrappedMain`: its error, and how often it closes the writer. The stack of a panic is left out.
unfoldable pub wrapped_main : GoroutineScript → Option Cause × ℕ
wrapped_main s = elim (s.writer_err) [
  | some e ↦ (some (because (join "service log handler: " e)), 0)
  | none ↦ (recovered s.main s.close_err, 1)
]

abbrev tells_stopping : String → Recorded
tells_stopping m = record { state = stopping; message = m }

-- `Run`: what it tells its sink, and its result.
unfoldable pub run_goroutine : GoroutineScript → List Recorded × (RunStatus × Option Cause)
unfolding wrapped_main
run_goroutine s =
    let status : RunStatus = record { started = true; exit_code = pos 0 } in
    let begun : Recorded = record { state = running; message = "Service started as goroutine" } in
    let asked : Recorded = tells_stopping "Service stopping" in
    let late : Recorded = tells_stopping "Service hasn't stopped gracefully on timeout, aborting" in
    if s.exits_first
    then (begun ∷ [], (status, (wrapped_main s).0))
    else if s.exits_in_time
    then (begun ∷ asked ∷ [], (status, (wrapped_main s).0))
    else (begun ∷ asked ∷ late ∷ [], (status, some aborted))
