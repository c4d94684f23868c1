-- ===== src/Boot/Starts.antt =====
-- apid starts once udevd is healthy.
use tailscale_os.Base.{◌≡◌, true, false, none, some, [], ◌∷◌}
use tailscale_os.Services.{is_running}
use tailscale_os.Boot.{Udevd, apid_round, device_round}
use tailscale_os.Boot.Ensure.{ensure_started_runs}
use tailscale_os.Boot.Singleton.{singleton, singleton-Lawful, open_for_new}
use tailscale_os.Boot.Order.{Machine, device_event, apid_event, resource_event, act, run, apid}

abbrev pub is_well : Udevd
is_well = record { running = true; healthy = true }

-- While the devices have not been declared ready, apid has not been started and new services are accepted,
-- apid runs after udevd is seen healthy, the controller of the devices has an event whose write succeeds
-- and then that of apid one whose wait succeeds, whatever happened before.
pub run_starts :
    (x : Machine)
    → x.device_done ≡ false
    → x.apid_started ≡ false
    → open_for_new x.services ≡ true
    → let y = run (resource_event (some is_well) ∷ device_event none ∷ apid_event none ∷ []) x in
      (is_running "apid" y.services ≡ some true) × (y.apid_started ≡ true)
unfolding run act device_round apid_round singleton-Lawful
run_starts x undone unstarted accepts =
    let r = ensure_started_runs singleton singleton-Lawful apid none x.services accepts in
    rw (undone, unstarted) (r.2, r.1)
