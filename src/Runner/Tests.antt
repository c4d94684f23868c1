-- ===== src/Runner/Tests.antt =====
-- service_runner.go: the theorems at concrete services.
use tailscale_os.Base.{◌<◌, refl, true, List, [], ◌∷◌, length, arith}
use tailscale_os.Chan.{make, try_send, send_all, receive}
use tailscale_os.Health.{zero_status, update_health, next_status, changes, is_healthy}
use tailscale_os.History.{no_events, initialized, running}
use tailscale_os.Runner.{
  World, ServiceRunner, up, in_state, subscribers, set_subscribers, subscribe, notify_event,
  record_state, state_event, record_health, health_event, is_running,
}
use tailscale_os.Runner.Wakeup.{Act, records, judges, reports, subscribes, notifies, act, run_acts}
use tailscale_os.Runner.Wakeup.Safe.{at_rest, no_lost_wakeup}

abbrev apid : ServiceRunner
apid = record {
  id = "apid";
  is_healthchecked = true;
  has_runtime = true;
  state = initialized;
  events = no_events;
  health_state = record { status = zero_status; subscribers = 1 ∷ [] };
  up_subscribers = [];
  down_subscribers = [];
  done_subscribers = [];
  stop_ch = make 1;
}

abbrev machine : World
machine = record { runner = apid; chans = λ _. make 1; health_chans = λ _. make 1; published = [] }

-- A waiter for `up` comes, the service runs, its first check succeeds and is reported.
abbrev comes_up : List Act
comes_up =
    subscribes up 2 ∷ records 5 running "Started" ∷ judges 6 true "" ∷ reports 7 ∷ notifies up ∷ []

no_lost_wakeup_example : 0 < length ((run_acts 1 comes_up (at_rest machine)).world.chans 2).buffer
unfolding run_acts act subscribe in_state record_state state_event notify_event send_all try_send
    set_subscribers subscribers update_health next_status changes receive record_health health_event
    is_running is_healthy
no_lost_wakeup_example =
    no_lost_wakeup 1 comes_up machine up 2 refl refl refl (λ c. omega arith) (omega arith)
      (omega arith) refl refl (omega arith) refl
