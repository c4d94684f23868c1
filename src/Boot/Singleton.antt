-- ===== src/Boot/Singleton.antt =====
-- The singleton of pkg/system/system.go is such a service manager.
use tailscale_os.Base.{
  is_some, ◌≡◌, Bool, true, false, not, Option, none, some, List, [], ◌∷◌, String, join, eq_refl,
  lookup, lookup-insert, arith, Bool-cases, inl, inr,
}
use tailscale_os.Runner.{new_service_runner}
use tailscale_os.Services.{
  Service, Services, closed, load, load_all, load_one, start, start_all, launch, is_running,
}
use tailscale_os.Boot.{Manager}
use tailscale_os.Boot.Ensure.{Lawful}

abbrev pub first_error : List String × Services → Option String × Services
first_error ([], x) = (none, x)
first_error (id ∷ ids, x) = (some (join "service not defined: " id), x)

abbrev pub singleton : Manager
singleton = record {
  State = Services;
  load = λ svc x. (load (svc ∷ []) x).1;
  is_running = is_running;
  start = λ id x. first_error (start (id ∷ []) x);
}

abbrev pub open_for_new : Services → Bool
open_for_new x = not (closed x)

is_open-load_one : (svc : Service) (x : Services) → open_for_new (load_one svc x) ≡ open_for_new x
unfolding load_one
is_open-load_one svc x = ground arith

pub is_open-load :
    (svc : Service) (x : Services) → open_for_new (load (svc ∷ []) x).1 ≡ open_for_new x
unfolding load load_all
is_open-load svc x = ground (arith, is_open-load_one svc x)

load_one-known :
    (svc : Service) (x : Services) → is_some (lookup svc.id (load_one svc x).state) ≡ true
unfolding load_one
load_one-known svc x = elim (Bool-cases (is_some (lookup svc.id x.state))) [
  | inl there ↦ rw (there, load_one) there
  | inr new ↦
      rw (new, load_one)
        (ground (
          arith,
          eq_refl svc.id,
          lookup-insert svc.id svc.id (new_service_runner svc.id svc.healthchecked true) x.state,
        ))
]

pub load-known :
    (svc : Service) (x : Services)
    → open_for_new x ≡ true
    → (b : Bool) × (is_running svc.id (load (svc ∷ []) x).1 ≡ some b)
unfolding load load_all is_running
load-known svc x o =
    (is_some (lookup svc.id (load_one svc x).running), ground (arith, o, load_one-known svc x))

pub start-runs :
    (id : String) (x : Services)
    → open_for_new x ≡ true
    → is_running id x ≡ some false
    → ((first_error (start (id ∷ []) x)).0 ≡ none)
      × (is_running id (first_error (start (id ∷ []) x)).1 ≡ some true)
unfolding start start_all launch is_running
start-runs id x o r = ground (arith, o, r, eq_refl id, lookup-insert id id tt x.running)

unfoldable pub singleton-Lawful : Lawful singleton
singleton-Lawful = record {
  is_open = open_for_new;
  is_open-load = is_open-load;
  load-known = load-known;
  start-runs = start-runs;
}
