-- ===== src/Boot/Order.antt =====
-- The three controllers beside each other: nothing that needs the devices is started before udevd was
-- healthy.
use tailscale_os.Base.{
  is_some, ◌≡◌, refl, Bool, true, false, ◌&&◌, ◌||◌, Option, none, some, List, [], ◌∷◌, String,
  lookup, if◌then◌else◌, arith,
}
use tailscale_os.Services.{Service, Services, new_services, leave, forget, deny, shutdown}
use tailscale_os.Boot.{
  Udevd, Read, found, missing, Round, ends, device_round, apid_round, udevd_round,
}
use tailscale_os.Boot.Singleton.{singleton}
use tailscale_os.Boot.Loaded.{is_loaded, loaded-ensure}

abbrev pub udevd : Service
udevd = record { id = "udevd"; healthchecked = true }

abbrev pub apid : Service
apid = record { id = "apid"; healthchecked = true }

-- The services, the resource of udevd, that of the devices, whether `DeviceStatusController` has ended,
-- and the flags `started` of the other two.
pub record Machine : Type 0 where
  pub services : Services
  pub udevd_resource : Option Udevd
  pub ready : Bool
  pub device_done : Bool
  pub udevd_started : Bool
  pub apid_started : Bool

-- An event at a controller, with the error of its wait or its write if there is one; a change of the
-- resource of udevd, by `ServiceController`; and the other calls of the singleton. Nothing else loads a
-- service.
pub data Act : Type 0 where
  udevd_event device_event apid_event : Option String → Act
  resource_event : Option Udevd → Act
  leaves forgets : String → Act
  denies shuts_down : Act

abbrev read_of : {A : Type 0} → Option A → Read A
read_of none = missing
read_of (some a) = found a

abbrev has_ended : Round → Bool
has_ended ends = true
has_ended _ = false

unfoldable pub act : Act → Machine → Machine
unfolding device_round apid_round udevd_round
act (udevd_event w) x =
    let r = (udevd_round singleton udevd x.udevd_started w x.services).1 in
    record x { udevd_started = r.0; services = r.1 }
act (device_event w) x =
    let r = device_round (read_of x.udevd_resource) x.ready w in
    if x.device_done then x else record x { ready = r.1; device_done = has_ended r.0 }
act (apid_event w) x =
    let r =
      (apid_round singleton apid (if x.ready then found true else missing) x.apid_started w
        x.services).1 in
    record x { apid_started = r.0; services = r.1 }
act (resource_event u) x = record x { udevd_resource = u }
act (leaves id) x = record x { services = leave id x.services }
act (forgets id) x = record x { services = forget id x.services }
act denies x = record x { services = deny x.services }
act shuts_down x = record x { services = (shutdown x.services).1 }

unfoldable pub run : List Act → Machine → Machine
run [] x = x
run (a ∷ acts) x = run acts (act a x)

abbrev pub powered_on : Machine
powered_on = record {
  services = new_services;
  udevd_resource = none;
  ready = false;
  device_done = false;
  udevd_started = false;
  apid_started = false;
}

abbrev pub healthy : Option Udevd → Bool
healthy none = false
healthy (some u) = u.running && u.healthy

-- Whether udevd was running and healthy at some moment of a run.
unfoldable pub was_healthy : List Act → Machine → Bool
was_healthy [] x = healthy x.udevd_resource
was_healthy (a ∷ acts) x = healthy x.udevd_resource || was_healthy acts (act a x)

-- What holds at every moment, where `seen` says whether udevd was healthy before.
pub record Inv (seen : Bool) (x : Machine) : Type 0 where
  pub ready_after : x.ready ≡ true → seen ≡ true
  pub loaded_after : is_loaded "apid" x.services ≡ true → seen ≡ true

device-ready :
    (o : Option Udevd) (ready : Bool) (w : Option String)
    → (device_round (read_of o) ready w).1 ≡ true
    → (healthy o || ready) ≡ true
unfolding device_round
device-ready none ready w e = e
device-ready (some u) ready none e = ground arith
device-ready (some u) ready (some m) e = ground arith

pub loaded-leave : (id j : String) (x : Services) → is_loaded j (leave id x) ≡ is_loaded j x
unfolding leave
loaded-leave id j x = ground arith

pub loaded-forget : (id j : String) (x : Services) → is_loaded j (forget id x) ≡ is_loaded j x
unfolding forget
loaded-forget id j x = ground arith

pub loaded-shutdown : (j : String) (x : Services) → is_loaded j (shutdown x).1 ≡ is_loaded j x
unfolding shutdown
loaded-shutdown j x = ground arith

apid-loaded :
    (ready started : Bool) (w : Option String) (x : Services)
    → is_loaded "apid"
        (apid_round singleton apid (if ready then found true else missing) started w x).1.1
      ≡ true
    → (ready || is_loaded "apid" x) ≡ true
unfolding apid_round
apid-loaded true started w x e = refl
apid-loaded false started w x e = e

udevd-loaded :
    (started : Bool) (w : Option String) (x : Services)
    → is_loaded "apid" (udevd_round singleton udevd started w x).1.1 ≡ true
    → is_loaded "apid" x ≡ true
unfolding udevd_round
udevd-loaded started w x e = loaded-ensure udevd started w "apid" x e

pub act-Inv :
    (a : Act) (seen : Bool) (x : Machine)
    → Inv seen x
    → Inv (healthy x.udevd_resource || seen) (act a x)
unfolding act deny
act-Inv (udevd_event w) seen x v = record {
  ready_after = λ e. ground (arith, v.ready_after);
  loaded_after = λ e. ground (arith, v.loaded_after (udevd-loaded x.udevd_started w x.services e));
}
act-Inv (device_event w) seen x v = record {
  ready_after = λ e. ground (arith, e, v.ready_after, device-ready x.udevd_resource x.ready w);
  loaded_after = λ e. ground (arith, e, v.loaded_after);
}
act-Inv (apid_event w) seen x v = record {
  ready_after = λ e. ground (arith, v.ready_after);
  loaded_after = λ e.
      ground
        (arith, v.ready_after, v.loaded_after, apid-loaded x.ready x.apid_started w x.services e);
}
act-Inv (resource_event u) seen x v = record {
  ready_after = λ e. ground (arith, v.ready_after, e);
  loaded_after = λ e. ground (arith, v.loaded_after, e);
}
act-Inv (leaves id) seen x v = record {
  ready_after = λ e. ground (arith, v.ready_after, e);
  loaded_after = λ e. ground (arith, v.loaded_after, e, loaded-leave id "apid" x.services);
}
act-Inv (forgets id) seen x v = record {
  ready_after = λ e. ground (arith, v.ready_after, e);
  loaded_after = λ e. ground (arith, v.loaded_after, e, loaded-forget id "apid" x.services);
}
act-Inv denies seen x v = record {
  ready_after = λ e. ground (arith, v.ready_after, e);
  loaded_after = λ e. ground (arith, v.loaded_after, e);
}
act-Inv shuts_down seen x v = record {
  ready_after = λ e. ground (arith, v.ready_after, e);
  loaded_after = λ e. ground (arith, v.loaded_after, e, loaded-shutdown "apid" x.services);
}

run-seen :
    (acts : List Act) (seen : Bool) (x : Machine)
    → Inv seen x
    → is_loaded "apid" (run acts x).services ≡ true
    → (was_healthy acts x || seen) ≡ true
unfolding run was_healthy
run-seen [] seen x v e = ground (arith, v.loaded_after, e)
run-seen (a ∷ acts) seen x v e =
    ground
      (arith, run-seen acts (healthy x.udevd_resource || seen) (act a x) (act-Inv a seen x v) e)

-- From power-on, whatever happens in whatever order: if apid is loaded, udevd was running and healthy at
-- some moment before.
pub run_ordered :
    (acts : List Act)
    → is_some (lookup "apid" (run acts powered_on).services.state) ≡ true
    → was_healthy acts powered_on ≡ true
unfolding lookup
run_ordered acts e = ground (
  arith,
  run-seen acts false powered_on (record { ready_after = λ q. cc; loaded_after = λ q. cc }) e,
)
