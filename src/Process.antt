-- ===== src/Process.antt =====
-- internal/app/machined/pkg/system/runner/process/process.go: one run of a process, its stop with
-- SIGTERM and its end with SIGKILL. What the operating system and the context do is a script.
pub mod Escalation
pub mod Build
mod Tests
use tailscale_os.Base.{
  ℕ, Bool, true, false, not, ◌&&◌, Option, none, some, List, [], ◌∷◌, ◌++◌, String, join,
  if◌then◌else◌,
}
use tailscale_os.Base.Int.{ℤ, pos}
use tailscale_os.History.{ServiceState, running, stopping}
use tailscale_os.Restart.{RunStatus, Recorded}

-- `pid` and `show_pid` stand for the process identifier and its text. `exits_first` says that the
-- process ends before the context, `exits_in_time` that it then ends before the timeout does, and the
-- errors are those of the two signals, of `Wait`, and of the calls before them.
pub record ProcessScript : Type 0 where
  pub args : List String
  pub build_err : Option String
  pub start_err : Option String
  pub shown_pid : String
  pub exits_first : Bool
  pub term_err : Option String
  pub exits_in_time : Bool
  pub kill_err : Option String
  pub exit_code : ℤ
  pub wait_err : Option String

pub data Sent : Type 0 where
  sigterm sigkill : Sent

-- What a run told its sink, which signals it sent, and its result.
pub record Ran : Type 0 where
  pub told : List Recorded
  pub sent : List Sent
  pub status : RunStatus
  pub err : Option String

abbrev pub not_started : RunStatus
not_started = record { started = false; exit_code = pos 0 }

abbrev stops_with : String → Recorded
stops_with m = record { state = stopping; message = m }

-- A signal: the announcement, and one more where it fails.
unfoldable pub announce_signal : String → String → Option String → List Recorded
announce_signal signal name none =
    stops_with (join (join (join "Sending " signal) " to ") name) ∷ []
announce_signal signal name (some e) =
    stops_with (join (join (join "Sending " signal) " to ") name)
    ∷ stops_with (join (join (join (join (join "Failed to send " signal) " to ") name) ": ") e)
    ∷ []

-- The part of `Run` after the process has started.
unfoldable pub supervise_process : String → ProcessScript → Ran
unfolding announce_signal
supervise_process name s =
    let status : RunStatus = record { started = true; exit_code = s.exit_code } in
    let begun : Recorded = record {
      state = running;
      message = join (join (join "Process " name) " started with PID ") s.shown_pid;
    } in
    let term : List Recorded = announce_signal "SIGTERM" name s.term_err in
    if s.exits_first
    then record { told = begun ∷ []; sent = []; status = status; err = s.wait_err }
    else if s.exits_in_time
    then record { told = begun ∷ term; sent = sigterm ∷ []; status = status; err = s.wait_err }
    else record {
      told = begun ∷ (term ++ announce_signal "SIGKILL" name s.kill_err);
      sent = sigterm ∷ sigkill ∷ [];
      status = status;
      err = s.wait_err;
    }

abbrev fails_with : String → Ran
fails_with e = record { told = []; sent = []; status = not_started; err = some e }

-- `Run`; `name` is the text of the runner.
unfoldable pub run_process : String → ProcessScript → Ran
unfolding supervise_process
run_process name s = elim (s.args) [
  | [] ↦ fails_with "no process args specified"
  | _ ∷ _ ↦ elim (s.build_err) [
    | some e ↦ fails_with e
    | none ↦ elim (s.start_err) [
      | some e ↦ fails_with (join "error starting process: " e)
      | none ↦ supervise_process name s
    ]
  ]
]
