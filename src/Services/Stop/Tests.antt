-- ===== src/Services/Stop/Tests.antt =====
-- Two services that stop, and one that was loaded and never started.
use tailscale_os.Base.{true, false, none, [], ◌∷◌, String}
use tailscale_os.Chan.{make}
use tailscale_os.History.{running, stopping}
use tailscale_os.Runner.{World, new_service_runner, update_state}
use tailscale_os.Services.Stop.{Stopping, idle, concludes, moves, judges}

abbrev as_it_is : String → String
as_it_is m = m

abbrev loaded : String → World
loaded id = record {
  runner = new_service_runner id true true;
  chans = λ _. make 1;
  health_chans = λ _. make 1;
  published = [];
}

-- A service that runs, and stops with an error.
abbrev started : String → Stopping
started id = record {
  world = update_state 3 running "Started" (loaded id);
  channel = 7;
  fate =
      concludes (moves 4 stopping "Sending SIGTERM" ∷ judges 5 false "service not running" ∷ []) 6
        none;
}

abbrev never_started : Stopping
never_started = record { world = loaded "apid"; channel = 8; fate = idle }
