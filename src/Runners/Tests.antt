-- ===== src/Runners/Tests.antt =====
-- A process that crashes, is run again, and is stopped.
use tailscale_os.Base.{◌≡◌, refl, true, false, none, some, List, [], ◌∷◌}
use tailscale_os.Base.Int.{pos}
use tailscale_os.Chan.{make}
use tailscale_os.Restart.{forever}
use tailscale_os.Process.{ProcessScript}
use tailscale_os.Runner.{World, down, in_state, new_service_runner}
use tailscale_os.Runner.Lifecycle.{happen_all}
use tailscale_os.Runners.{process_runner, Turn, run_over}
use tailscale_os.Runners.Lively.{told_to_sink, process_runner-Modest, sink_stays_up}

abbrev crash : ProcessScript
crash = record {
  args = "/sbin/udevd" ∷ [];
  build_err = none;
  start_err = none;
  shown_pid = "41";
  exits_first = true;
  term_err = none;
  exits_in_time = false;
  kill_err = none;
  exit_code = pos 1;
  wait_err = some "exit status 1";
}

abbrev turns : List (Turn (process_runner "Process(udevd)"))
turns =
    (crash, (false, false))
    ∷ (record crash { exits_first = false; exits_in_time = true; wait_err = none }, (true, false))
    ∷ []

abbrev loaded : World
loaded = record {
  runner = new_service_runner "udevd" true true;
  chans = λ _. make 1;
  health_chans = λ _. make 1;
  published = [];
}

sink_stays_up_example :
    in_state down
      (happen_all
        (told_to_sink 3
          (run_over (process_runner "Process(udevd)") "Process(udevd)" forever turns).0)
        loaded).runner
    ≡ false
unfolding new_service_runner
sink_stays_up_example =
    sink_stays_up (process_runner "Process(udevd)") "Process(udevd)" forever turns 3 loaded
      (process_runner-Modest "Process(udevd)") refl
