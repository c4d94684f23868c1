-- ===== src/Boot/Loaded.antt =====
-- What a controller may do to the services that are loaded.
use tailscale_os.Base.{
  is_some, ◌≡◌, refl, sym, ◌∙◌, Bool, true, false, ◌||◌, Option, none, some, [], ◌∷◌, String,
  str_eq, lookup, lookup-insert, arith,
}
use tailscale_os.Runner.{new_service_runner}
use tailscale_os.Services as S
use tailscale_os.Services.{
  Service, Services, new_services, closed, load, load_all, load_one, start, start_all, launch,
  leave, forget, deny, shutdown,
}
use tailscale_os.Boot.{ensure_started, check_start, check_running}
use tailscale_os.Boot.Singleton.{singleton, first_error}

abbrev pub is_loaded : String → Services → Bool
is_loaded id x = is_some (lookup id x.state)

-- What a call of the singleton may do to the services that are loaded.
loaded-launch : (id j : String) (x : Services) → is_loaded j (launch id x) ≡ is_loaded j x
unfolding launch
loaded-launch id j x = ground arith

pub loaded-start :
    (id j : String) (x : Services) → is_loaded j (first_error (start (id ∷ []) x)).1 ≡ is_loaded j x
unfolding start start_all
loaded-start id j x = ground (arith, loaded-launch id j x)

pub loaded-load :
    (svc : Service) (j : String) (x : Services)
    → is_loaded j (load (svc ∷ []) x).1 ≡ true
    → (str_eq j svc.id || is_loaded j x) ≡ true
unfolding load load_all load_one
loaded-load svc j x e =
    ground
      (arith, e, lookup-insert svc.id j (new_service_runner svc.id svc.healthchecked true) x.state)

loaded-check :
    (o : Option Bool) (id j : String) (w : Option String) (x : Services)
    → is_loaded j (check_running singleton o id w x).1.1 ≡ is_loaded j x
loaded-check none id j w x = refl
loaded-check (some true) id j none x = refl
loaded-check (some true) id j (some e) x = refl
loaded-check (some false) id j w x = after (first_error (start (id ∷ []) x)) w (loaded-start id j x)
  where
    after :
        (p : Option String × Services) (w : Option String)
        → is_loaded j p.1 ≡ is_loaded j x
        → is_loaded j (check_start singleton p w).1.1 ≡ is_loaded j x
    after (none, y) none e = e
    after (none, y) (some q) e = e
    after (some q, y) w e = e

pub loaded-ensure :
    (svc : Service) (started : Bool) (w : Option String) (j : String) (x : Services)
    → is_loaded j (ensure_started singleton svc started w x).1.1 ≡ true
    → (str_eq j svc.id || is_loaded j x) ≡ true
unfolding ensure_started
loaded-ensure svc true w j x e = ground arith
loaded-ensure svc false w j x e = loaded-load svc j x (
    sym (loaded-check (S.is_running svc.id (load (svc ∷ []) x).1) svc.id j w (load (svc ∷ []) x).1)
    ∙ e)
