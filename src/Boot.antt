-- ===== src/Boot.antt =====
-- internal/app/machined/pkg/controllers/runtime: the controllers that start udevd and apid, and the one
-- that says when the devices are ready.
pub mod Ensure
pub mod Singleton
pub mod Loaded
pub mod Order
pub mod Only
pub mod Starts
pub mod Chain
mod Tests
use tailscale_os.Base.{
  ℕ, Bool, true, false, not, ◌&&◌, Option, none, some, List, [], ◌∷◌, String, join, if◌then◌else◌,
}
use tailscale_os.Services.{Service}

-- `UdevServiceManager` and `ApidServiceManager`, which are the same interface. `is_running` gives
-- `none` for its error, and `start` an error or `none`.
pub record Manager : Type 1 where
  pub State : Type 0
  pub load : Service → State → State
  pub is_running : String → State → Option Bool
  pub start : String → State → Option String × State

-- An error of `ensureStarted`, the flag `started`, and the services.
abbrev pub Ensured : Manager → Type 0
Ensured m = Option String × (Bool × m.State)

module _ (m : Manager) where
  abbrev pub wait_up : Option String → m.State → Ensured m
  wait_up none s = (none, (true, s))
  wait_up (some e) s = (some (join "failed waiting for service: " e), (false, s))

  abbrev pub check_start : Option String × m.State → Option String → Ensured m
  check_start (none, s) w = wait_up w s
  check_start (some e, s) w = (some (join "failed to start service: " e), (false, s))

  abbrev pub check_running : Option Bool → String → Option String → m.State → Ensured m
  check_running none id w s = (some "failed to check service state", (false, s))
  check_running (some true) id w s = wait_up w s
  check_running (some false) id w s = check_start (m.start id s) w

  -- `ensureStarted` of both controllers; `w` is the error of `WaitForService`. The texts of the errors
  -- are less the name of the service.
  unfoldable pub ensure_started : Service → Bool → Option String → m.State → Ensured m
  ensure_started svc true w s = (none, (true, s))
  ensure_started svc false w s =
      let s' : m.State = m.load svc s in check_running (m.is_running svc.id s') svc.id w s'

-- What a read of a resource gives.
pub data Read (A : Type 0) : Type 0 where
  found : A → Read A
  missing : Read A
  failed : String → Read A

-- One round of a controller goes on, with an error or without, or ends the controller.
pub data Round : Type 0 where
  goes_on ends : Round
  fails : String → Round

-- The spec of the resource of udevd, as far as `DeviceStatusController` reads it.
pub record Udevd : Type 0 where
  pub running : Bool
  pub healthy : Bool

-- `DeviceStatusController.Run` after an event: the round, and whether the devices are ready. The third
-- argument is the error of the write.
unfoldable pub device_round : Read Udevd → Bool → Option String → Round × Bool
device_round missing ready w = (goes_on, ready)
device_round (failed e) ready w = (fails e, ready)
device_round (found u) ready none =
    if u.running && u.healthy then (ends, true) else (goes_on, ready)
device_round (found u) ready (some e) =
    if u.running && u.healthy then (fails e, ready) else (goes_on, ready)

-- The loop of `WaitForDevicesReady`: what each read gives, or the end of the context, and what follows
-- the loop.
unfoldable pub read_devices : List (Option (Read Bool)) → Option String → Option Round
read_devices [] restored = none
read_devices (none ∷ reads) restored = some (fails "context canceled")
read_devices (some missing ∷ reads) restored = read_devices reads restored
read_devices (some (failed e) ∷ reads) restored = some (fails e)
read_devices (some (found false) ∷ reads) restored = read_devices reads restored
read_devices (some (found true) ∷ reads) none = some ends
read_devices (some (found true) ∷ reads) (some e) = some (fails e)

-- `WaitForDevicesReady` between the errors of its two calls of `UpdateInputs`; `none` while it waits.
unfoldable pub wait_for_devices :
    Option String → List (Option (Read Bool)) → Option String → Option Round
unfolding read_devices
wait_for_devices none reads restored = read_devices reads restored
wait_for_devices (some e) reads restored = some (fails e)

module _ (m : Manager) where
  abbrev pub round_of : Ensured m → Round
  round_of (none, x) = goes_on
  round_of (some e, x) = fails e

  -- `ApidServiceController.Run` after an event.
  unfoldable pub apid_round :
      Service → Read Bool → Bool → Option String → m.State → Round × (Bool × m.State)
  unfolding ensure_started
  apid_round apid missing started w s = (goes_on, (started, s))
  apid_round apid (failed e) started w s = (fails e, (started, s))
  apid_round apid (found false) started w s = (goes_on, (started, s))
  apid_round apid (found true) started w s =
      let r : Ensured m = ensure_started m apid started w s in (round_of r, r.1)

  -- `UdevServiceController.Run` after an event.
  unfoldable pub udevd_round : Service → Bool → Option String → m.State → Round × (Bool × m.State)
  unfolding ensure_started
  udevd_round udevd started w s =
      let r : Ensured m = ensure_started m udevd started w s in (round_of r, r.1)
