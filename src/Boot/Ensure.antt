-- ===== src/Boot/Ensure.antt =====
-- A service is started by the controller that owns it.
use tailscale_os.Base.{
  succeeds, ◌≡◌, refl, ◌∙◌, Bool, true, false, Option, none, some, String, join,
}
use tailscale_os.Services.{Service}
use tailscale_os.Boot.{Manager, Ensured, ensure_started, wait_up, check_start, check_running}

-- What the controllers rely on: while new services are accepted, a service that was loaded is known, and
-- one that is known and does not run can be started, and runs then.
pub record Lawful (m : Manager) : Type 0 where
  pub is_open : m.State → Bool
  pub is_open-load : (svc : Service) (s : m.State) → is_open (m.load svc s) ≡ is_open s
  pub load-known :
      (svc : Service) (s : m.State)
      → is_open s ≡ true
      → (b : Bool) × (m.is_running svc.id (m.load svc s) ≡ some b)
  pub start-runs :
      (id : String) (s : m.State)
      → is_open s ≡ true
      → m.is_running id s ≡ some false
      → ((m.start id s).0 ≡ none) × (m.is_running id (m.start id s).1 ≡ some true)

abbrev pub wait_error : Option String → Option String
wait_error none = none
wait_error (some e) = some (join "failed waiting for service: " e)

module _ (m : Manager) (law : Lawful m) where
  abbrev Runs : String → Option String → Ensured m → Type 0
  Runs id w r = (r.0 ≡ wait_error w) × (r.1.0 ≡ succeeds w) × (m.is_running id r.1.1 ≡ some true)

  wait_up-Runs :
      (id : String) (w : Option String) (s : m.State)
      → m.is_running id s ≡ some true
      → Runs id w (wait_up m w s)
  wait_up-Runs id none s r = (refl, refl, r)
  wait_up-Runs id (some e) s r = (refl, refl, r)

  check_start-Runs :
      (id : String) (w : Option String) (p : Option String × m.State)
      → p.0 ≡ none
      → m.is_running id p.1 ≡ some true
      → Runs id w (check_start m p w)
  check_start-Runs id w (none, s) e r = wait_up-Runs id w s r
  check_start-Runs id w (some x, s) e r = cc

  check_running-Runs :
      (b : Bool) (id : String) (w : Option String) (s : m.State)
      → law.is_open s ≡ true
      → m.is_running id s ≡ some b
      → Runs id w (check_running m (some b) id w s)
  check_running-Runs true id w s o r = wait_up-Runs id w s r
  check_running-Runs false id w s o r =
      let q = law.start-runs id s o r in check_start-Runs id w (m.start id s) q.0 q.1

  -- While new services are accepted, a controller that has not started its service yet leaves it running,
  -- whether it was loaded, running or neither before. Its only error is that of the wait for the service,
  -- and it takes the service for started exactly if there is none.
  pub ensure_started_runs :
      (svc : Service) (w : Option String) (s : m.State)
      → law.is_open s ≡ true
      → let r = ensure_started m svc false w s in
        (r.0 ≡ wait_error w) × (r.1.0 ≡ succeeds w) × (m.is_running svc.id r.1.1 ≡ some true)
  unfolding ensure_started
  ensure_started_runs svc w s o =
      let (b, known) = law.load-known svc s o in
      rw known (check_running-Runs b svc.id w (m.load svc s) (law.is_open-load svc s ∙ o) known)
