-- ===== src/Boot/Only.antt =====
-- Which services are ever loaded: the calls of the controllers of udevd and apid are the only ones.
use tailscale_os.Base.{
  is_some, ◌≡◌, ◌⊎◌, inl, inr, refl, ap, sym, ◌∙◌, Bool, true, false, ◌||◌, Option, List, [], ◌∷◌,
  String, str_eq, eq_iff, lookup, arith, if◌then◌else◌,
}
use tailscale_os.Services.{Services, deny}
use tailscale_os.Boot.{found, missing, udevd_round, apid_round}
use tailscale_os.Boot.Singleton.{singleton}
use tailscale_os.Boot.Loaded.{is_loaded, loaded-ensure}
use tailscale_os.Boot.Order.{
  Machine, Act, udevd_event, device_event, apid_event, resource_event, leaves, forgets, denies,
  shuts_down, act, run, powered_on, was_healthy, run_ordered, udevd, apid, loaded-leave,
  loaded-forget, loaded-shutdown,
}

module _ (j : String) where
  loaded-apid_round :
      (ready started : Bool) (w : Option String) (x : Services)
      → is_loaded j
          (apid_round singleton apid (if ready then found true else missing) started w x).1.1
        ≡ true
      → (str_eq j "apid" || is_loaded j x) ≡ true
  unfolding apid_round
  loaded-apid_round true started w x e = loaded-ensure apid started w j x e
  loaded-apid_round false started w x e = ground (arith, e)

  -- One step loads udevd or apid at most.
  loaded-act :
      (a : Act) (x : Machine)
      → is_loaded j (act a x).services ≡ true
      → (str_eq j "udevd" || (str_eq j "apid" || is_loaded j x.services)) ≡ true
  unfolding act udevd_round deny
  loaded-act (udevd_event w) x e =
      ground (arith, loaded-ensure udevd x.udevd_started w j x.services e)
  loaded-act (device_event w) x e = ground (arith, e)
  loaded-act (apid_event w) x e =
      ground (arith, loaded-apid_round x.ready x.apid_started w x.services e)
  loaded-act (resource_event u) x e = ground (arith, e)
  loaded-act (leaves id) x e = ground (arith, e, loaded-leave id j x.services)
  loaded-act (forgets id) x e = ground (arith, e, loaded-forget id j x.services)
  loaded-act denies x e = ground (arith, e)
  loaded-act shuts_down x e = ground (arith, e, loaded-shutdown j x.services)

  loaded-run :
      (acts : List Act) (x : Machine)
      → is_loaded j (run acts x).services ≡ true
      → (str_eq j "udevd" || (str_eq j "apid" || is_loaded j x.services)) ≡ true
  unfolding run
  loaded-run [] x e = ground (arith, e)
  loaded-run (a ∷ acts) x e = ground (arith, loaded-run acts (act a x) e, loaded-act a x)

-- From power-on, whatever happens in whatever order: a service that is loaded is udevd, or it is apid, and
-- then udevd was running and healthy at some moment before. No other service is ever loaded.
pub loaded_only :
    (acts : List Act) (id : String)
    → is_some (lookup id (run acts powered_on).services.state) ≡ true
    → (id ≡ "udevd") ⊎ ((id ≡ "apid") × (was_healthy acts powered_on ≡ true))
unfolding lookup
loaded_only acts id e =
    either (str_eq id "udevd") (str_eq id "apid") refl refl (loaded-run id acts powered_on e)
  where
    either :
        (u a : Bool)
        → str_eq id "udevd" ≡ u
        → str_eq id "apid" ≡ a
        → (u || (a || false)) ≡ true
        → (id ≡ "udevd") ⊎ ((id ≡ "apid") × (was_healthy acts powered_on ≡ true))
    either true a p q h = inl (grind (arith, eq_iff id "udevd"))
    either false true p q h =
        let here : id ≡ "apid" = grind (arith, eq_iff id "apid") in
        inr (
          here,
          run_ordered acts
              (ap (λ n. is_some (lookup n (run acts powered_on).services.state)) (sym here) ∙ e),
        )
    either false false p q h = cc
