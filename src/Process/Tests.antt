-- ===== src/Process/Tests.antt =====
-- A process that ignores SIGTERM.
use tailscale_os.Base.{◌≡◌, refl, ◌⊎◌, false, none, some, [], ◌∷◌}
use tailscale_os.Base.Int.{negsuc}
use tailscale_os.Process.{ProcessScript, run_process}
use tailscale_os.Process.Build.{
  Files, BuildScript, build, left_open, kept, build-left_open, open_stdin, open_stdout, open_stderr,
}
use tailscale_os.Process.Escalation.{Silent, Began, run_process_orderly}

abbrev stubborn : ProcessScript
stubborn = record {
  args = "/sbin/udevd" ∷ [];
  build_err = none;
  start_err = none;
  shown_pid = "41";
  exits_first = false;
  term_err = none;
  exits_in_time = false;
  kill_err = none;
  exit_code = negsuc 0;
  wait_err = some "signal: killed";
}

run_process_orderly_example :
    Silent (run_process "Process(udevd)" stubborn) ⊎ Began (run_process "Process(udevd)" stubborn)
run_process_orderly_example = run_process_orderly "Process(udevd)" stubborn

-- The log is a file that is missing.
abbrev to_files : Files
to_files = record { stdin = "/dev/null"; stdout = "/dev/console"; stderr = "" }

abbrev no_console : BuildScript
no_console = record {
  sink_err = none;
  stdin_err = none;
  stdout_err = some "no such file";
  stderr_err = none;
}

build-left_open_example :
    left_open (build to_files no_console) ≡ kept to_files (build to_files no_console).err
build-left_open_example = build-left_open to_files no_console

one_left_open : (build to_files (record no_console { stdout_err = none })).err ≡ none
unfolding build open_stdin open_stdout open_stderr
one_left_open = refl
