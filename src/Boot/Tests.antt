-- ===== src/Boot/Tests.antt =====
-- udevd and apid on a machine that starts.
use tailscale_os.Base.{
  ◌⊎◌, succeeds, ◌≡◌, refl, Bool, true, false, Option, none, some, List, [], ◌∷◌, lookup,
}
use tailscale_os.Services as S
use tailscale_os.Services.{new_services, is_running}
use tailscale_os.Boot.{ensure_started, found, missing, ends, wait_for_devices, read_devices}
use tailscale_os.Boot.Ensure.{ensure_started_runs, wait_error}
use tailscale_os.Boot.Singleton.{singleton, singleton-Lawful}
use tailscale_os.Boot.Only.{loaded_only}
use tailscale_os.Boot.Order.{
  Machine, Act, udevd_event, device_event, apid_event, resource_event, act, run, powered_on,
  was_healthy, udevd, apid,
}

ensure_started_runs_example :
    let r = ensure_started singleton udevd false (some "timeout") new_services in
    (r.0 ≡ wait_error (some "timeout"))
    × (r.1.0 ≡ succeeds (some "timeout"))
    × (is_running "udevd" r.1.1 ≡ some true)
unfolding singleton-Lawful
ensure_started_runs_example =
    ensure_started_runs singleton singleton-Lawful udevd (some "timeout") new_services refl

-- apid asks before the devices are ready, and again after.
abbrev boot : List Act
boot =
    apid_event none
    ∷ udevd_event none
    ∷ resource_event (some (record { running = true; healthy = false }))
    ∷ device_event none
    ∷ resource_event (some (record { running = true; healthy = true }))
    ∷ device_event none
    ∷ resource_event none
    ∷ apid_event none
    ∷ []

loaded_only_example :
    (apid.id ≡ udevd.id) ⊎ ((apid.id ≡ "apid") × (was_healthy boot powered_on ≡ true))
unfolding lookup run act is_running S.load S.load_all S.load_one tailscale_os.Base.insert S.start
loaded_only_example = loaded_only boot "apid" refl

waits_for_devices :
    wait_for_devices none (some missing ∷ some (found false) ∷ some (found true) ∷ []) none
    ≡ some ends
unfolding wait_for_devices read_devices
waits_for_devices = refl

-- udevd runs and is not healthy yet.
abbrev started : Machine
started =
    run (udevd_event none ∷ resource_event (some (record { running = true; healthy = false })) ∷ [])
      powered_on
