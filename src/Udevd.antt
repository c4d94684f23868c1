-- ===== src/Udevd.antt =====
-- internal/app/machined/pkg/system/services/udevd.go: the health check of udevd, which also triggers the
-- events of the devices that were there before it. Commands, the clock and the context are a script.
pub mod Triggered
mod Tests
use tailscale_os.Base.{
  ℕ, ◌+◌, ◌==◌, ltb, Bool, true, false, not, ◌&&◌, ◌||◌, Option, none, some, List, [], ◌∷◌, ◌++◌,
  String, succeeds, if◌then◌else◌,
}

-- `Udevd`; the start of the extra time is `none` where it is the zero time.
pub record Udevd : Type 0 where
  pub extra_settle_time : ℕ
  pub triggered : Bool
  pub extra_settle_start : Option ℕ

abbrev pub new_udevd : ℕ → Udevd
new_udevd extra = record { extra_settle_time = extra; triggered = false; extra_settle_start = none }

-- One check: the error of the wait for the control file and of each command, the two times that it reads,
-- and the deadline of its context.
pub record CheckScript : Type 0 where
  pub file_err : Option String
  pub reload_err : Option String
  pub devices_err : Option String
  pub subsystems_err : Option String
  pub settle_err : Option String
  pub settled_at : ℕ
  pub now : ℕ
  pub deadline : Option ℕ

-- The commands, each with whether it succeeds.
pub data Command : Type 0 where
  reloads triggers_devices triggers_subsystems settles : Bool → Command

-- The commands of a check, the service after it, and its error.
abbrev pub Checked : Type 0
Checked = List Command × (Udevd × Option String)

abbrev pub after_command : (Bool → Command) → Option String → Udevd → Checked → Checked
after_command c none u later = (c true ∷ later.0, later.1)
after_command c (some e) u later = (c false ∷ [], (u, some e))

abbrev pub start_of : ℕ → Option ℕ → ℕ
start_of now none = now
start_of now (some t) = t

abbrev pub ends_before : ℕ → Option ℕ → Bool
ends_before end none = false
ends_before end (some d) = ltb end d

-- The part of the check after its commands. Where the end of the extra time is before the deadline, it
-- sleeps until then.
unfoldable pub settle_extra : CheckScript → Udevd → Checked
settle_extra s u =
    let start = start_of s.settled_at u.extra_settle_start in
    let u' : Udevd = record u { extra_settle_start = some start } in
    let end = start + u.extra_settle_time in
    if (u.extra_settle_time == 0) || (ltb end s.now || ends_before end s.deadline)
    then ([], (u', none))
    else ([], (u', some "waiting for udevd for extra settle timeout"))

unfoldable pub settle_all : CheckScript → Udevd → Checked
unfolding settle_extra
settle_all s u = after_command settles s.settle_err u (settle_extra s u)

unfoldable pub trigger_all : CheckScript → Udevd → Checked
unfolding settle_all
trigger_all s u =
    if u.triggered
    then settle_all s u
    else after_command triggers_devices s.devices_err u (
        after_command triggers_subsystems s.subsystems_err u
          (settle_all s (record u { triggered = true })))

abbrev pub after_file : Option String → Udevd → Checked → Checked
after_file none u later = later
after_file (some e) u later = ([], (u, some e))

-- The function that `HealthFunc` returns.
unfoldable pub health_check : CheckScript → Udevd → Checked
unfolding trigger_all
health_check s u = after_file s.file_err u (after_command reloads s.reload_err u (trigger_all s u))

-- A run of checks, as the loop of health checks makes them: the commands, the service after them, and
-- the error of each.
unfoldable pub run_checks : List CheckScript → Udevd → List Command × (Udevd × List (Option String))
unfolding health_check
run_checks [] u = ([], (u, []))
run_checks (s ∷ ss) u =
    let r : Checked = health_check s u in
    let rest = run_checks ss r.1.0 in (r.0 ++ rest.0, (rest.1.0, r.1.1 ∷ rest.1.1))
