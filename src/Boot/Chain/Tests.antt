-- ===== src/Boot/Chain/Tests.antt =====
-- udevd from its first check to the start of apid.
use tailscale_os.Base.{◌≡◌, refl, none, some, List, [], ◌∷◌, lookup, insert, delete, arith, true}
use tailscale_os.Chan.{receive, try_send, send_all}
use tailscale_os.Health as H
use tailscale_os.History as History
use tailscale_os.History.{running}
use tailscale_os.Runner as R
use tailscale_os.Runner.Lifecycle.{sink}
use tailscale_os.Controllers.Services.{handle}
use tailscale_os.Services as S
use tailscale_os.Udevd.{CheckScript, health_check}
use tailscale_os.Udevd.Triggered.{triggers_in}
use tailscale_os.Boot.{apid_round, udevd_round, device_round, ensure_started}
use tailscale_os.Boot.Order as O
use tailscale_os.Boot.Order.{udevd_event, device_event, apid_event}
use tailscale_os.Boot.Chain.{
  Chain, Turn, checks, sinks, subscribes, takes, next_event, acts, turn, run, power_on,
}
use tailscale_os.Boot.Chain.Starts.{Waits, steps, run_starts_apid}
use tailscale_os.Boot.Chain.Safe.{loaded_after_triggers}

abbrev passes : CheckScript
passes = record {
  file_err = none;
  reload_err = none;
  devices_err = none;
  subsystems_err = none;
  settle_err = none;
  settled_at = 20;
  now = 21;
  deadline = none;
}

-- The first check fails after the first of the two triggers.
abbrev boot : List Turn
boot =
    acts (udevd_event none)
    ∷ subscribes 7
    ∷ sinks 1 running "Process /sbin/udevd started"
    ∷ checks 2 (record passes { subsystems_err = some "exit status 1" })
    ∷ takes 3 7
    ∷ next_event
    ∷ acts (device_event none)
    ∷ checks 4 passes
    ∷ takes 5 7
    ∷ next_event
    ∷ next_event
    ∷ acts (device_event none)
    ∷ acts (apid_event none)
    ∷ []

loaded_after_triggers_example : triggers_in (run boot (power_on 0 (λ ch. 2))).commands ≡ 1
unfolding run turn lookup insert delete O.act receive try_send send_all H.record_round
    H.update_health H.next_status H.changes H.is_healthy H.is_unknown H.as_proto H.subscribe_health
    health_check sink R.new_service_runner R.is_running R.update_state R.record_state R.state_event
    R.notify_if R.notify_event R.subscribers R.in_state R.publish_event R.health_update
    R.health_event History.push History.code History.event_as_proto handle apid_round udevd_round
    device_round ensure_started S.load S.load_all S.load_one S.start S.start_all S.launch
    S.is_running
loaded_after_triggers_example = loaded_after_triggers 0 (λ ch. 2) boot refl

-- udevd runs and was not checked yet.
abbrev started : Chain
started =
    run
      (acts (udevd_event none)
        ∷ subscribes 7
        ∷ sinks 1 running "Process /sbin/udevd started"
        ∷ next_event
        ∷ [])
      (power_on 0 (λ ch. 2))

started-Waits : Waits 7 started
unfolding run turn lookup insert delete O.act receive try_send send_all H.record_round
    H.update_health H.next_status H.changes H.is_healthy H.is_unknown H.as_proto H.subscribe_health
    health_check sink R.new_service_runner R.is_running R.update_state R.record_state R.state_event
    R.notify_if R.notify_event R.subscribers R.in_state R.publish_event R.health_update
    R.health_event History.push History.code History.event_as_proto handle apid_round udevd_round
    device_round ensure_started S.load S.load_all S.load_one S.start S.start_all S.launch
    S.is_running
started-Waits = record {
  runs = refl;
  on_stream = refl;
  named = refl;
  unhealthy = refl;
  watched = refl;
  empty = refl;
  room = omega arith;
  all_handled = refl;
  undone = refl;
  unstarted = refl;
  accepts = refl;
}

run_starts_apid_example :
    let y = (run (steps 2 3 7 passes) started).machine in
    (S.is_running "apid" y.services ≡ some true) × (y.apid_started ≡ true)
unfolding run turn lookup insert delete O.act receive try_send send_all H.record_round
    H.update_health H.next_status H.changes H.is_healthy H.is_unknown H.as_proto H.subscribe_health
    health_check sink R.new_service_runner R.is_running R.update_state R.record_state R.state_event
    R.notify_if R.notify_event R.subscribers R.in_state R.publish_event R.health_update
    R.health_event History.push History.code History.event_as_proto handle apid_round udevd_round
    device_round ensure_started S.load S.load_all S.load_one S.start S.start_all S.launch
    S.is_running
run_starts_apid_example = run_starts_apid 2 3 7 started passes started-Waits refl
