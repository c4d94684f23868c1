-- ===== src/Runner/Conditions/Tests.antt =====
-- Waits for a service that is finished.
use tailscale_os.Base.{true, false, [], ◌∷◌}
use tailscale_os.Chan.{make}
use tailscale_os.Health.{zero_status}
use tailscale_os.History.{no_events, finished}
use tailscale_os.Runner.{World}

abbrev over : World
over = record {
  runner = record {
    id = "setup";
    is_healthchecked = false;
    has_runtime = true;
    state = finished;
    events = no_events;
    health_state = record { status = zero_status; subscribers = [] };
    up_subscribers = 9 ∷ [];
    down_subscribers = [];
    done_subscribers = [];
    stop_ch = make 1;
  };
  chans = λ _. make 1;
  health_chans = λ _. make 1;
  published = [];
}
