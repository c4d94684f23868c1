-- ===== src/Runner/Lifecycle/Tests.antt =====
-- A life of a service that is skipped.
use tailscale_os.Base.{true, false, none, [], ◌∷◌, String}
use tailscale_os.Chan.{make}
use tailscale_os.Health.{zero_status}
use tailscale_os.History.{initialized, no_events}
use tailscale_os.Runner.{World, ServiceRunner, subscribers}
use tailscale_os.Runner.Lifecycle.{Ending, crashes, Script, returns, hangs, absent}

abbrev as_it_is : String → String
as_it_is m = m

abbrev udevd : ServiceRunner
udevd = record {
  id = "udevd";
  is_healthchecked = true;
  has_runtime = true;
  state = initialized;
  events = no_events;
  health_state = record { status = zero_status; subscribers = [] };
  up_subscribers = [];
  down_subscribers = 5 ∷ [];
  done_subscribers = [];
  stop_ch = make 1;
}

abbrev machine : World
machine = record { runner = udevd; chans = λ _. make 1; health_chans = λ _. make 1; published = [] }

abbrev no_runner_at_all : Script
no_runner_at_all = record {
  at = 1;
  condition = none;
  gone_waiting = false;
  pre_err = none;
  gone_pre = false;
  made = absent;
  post_err = none;
}

abbrev world_of : {E : Type 0} → Ending E → World
world_of (returns w r) = w
world_of (hangs w) = w
world_of (crashes w) = w
