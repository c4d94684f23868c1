-- ===== src/Boot/Chain/Safe.antt =====
-- apid is not started before the devices have had their events.
use tailscale_os.Base.{
  ℕ, zero, suc, ◌==◌, ◌≡◌, refl, sym, ap, ◌∙◌, is_some, succeeds, Bool, true, false, not, ◌||◌,
  Option, none, some, List, [], ◌∷◌, String, str_eq, get_elem?, lookup, insert, delete,
  lookup-insert, lookup-delete, All, if◌then◌else◌, arith, Bool-cases, inl, inr,
}
use tailscale_os.Chan.{receive}
use tailscale_os.Health as H
use tailscale_os.Health.{HealthState, is_healthy}
use tailscale_os.History.{ServiceStateEvent}
use tailscale_os.Runner.{World, new_service_runner}
use tailscale_os.Runner.Lifecycle.{sink}
use tailscale_os.Controllers.Services.{ServiceSpec, Resources, running_action, handle}
use tailscale_os.Udevd.{CheckScript, Checked, health_check}
use tailscale_os.Udevd.Triggered.{triggers_in, one_if, Once, health_check-Once, triggers-append}
use tailscale_os.Boot.Order.{
  Machine, Act, udevd_event, device_event, apid_event, resource_event, leaves, forgets, denies,
  shuts_down, act, powered_on, healthy,
}
use tailscale_os.Boot.Order as O
use tailscale_os.Boot.Chain.{
  Chain, Turn, checks, sinks, subscribes, unsubscribes, restarts, takes, next_event, other_event,
  acts, with_state, judged, taken, seen_as, with_resources, handle_next, is_foreign, act_on, turn,
  run, power_on,
}
use tailscale_os.Boot.Chain.Quiet.{
  Quiet, Unsaid, judged-Quiet, sink-Quiet, taken-Quiet, with_state-Quiet,
}

-- Nothing on the way from udevd to apid says that udevd is healthy.
record Silent (x : Chain) : Type 0 where
  runner : Quiet x.world
  resource : healthy (seen_as (lookup "udevd" x.resources)) ≡ false
  read : healthy x.machine.udevd_resource ≡ false
  boot : O.Inv false x.machine

-- Each full trigger sets the flag, and without it the way is silent.
record Inv (x : Chain) : Type 0 where
  counts : triggers_in x.commands ≡ one_if x.daemon.triggered
  silent : x.daemon.triggered ≡ false → Silent x

act-silent :
    (a : Act) (m : Machine)
    → healthy m.udevd_resource ≡ false
    → O.Inv false m
    → O.Inv false (act a m)
act-silent a m e v =
    let step = O.act-Inv a false m v in
    let same : (healthy m.udevd_resource || false) ≡ false = ap (λ b. b || false) e in
    rw same at step

same_resource :
    (a : Act) (m : Machine)
    → healthy m.udevd_resource ≡ false
    → healthy (act_on a m).udevd_resource ≡ false
unfolding act
same_resource (udevd_event w) m e = e
same_resource (device_event w) m e = ground (arith, e)
same_resource (apid_event w) m e = e
same_resource (resource_event u) m e = e
same_resource (leaves id) m e = e
same_resource (forgets id) m e = e
same_resource denies m e = e
same_resource shuts_down m e = e

act_on-silent :
    (a : Act) (m : Machine)
    → healthy m.udevd_resource ≡ false
    → O.Inv false m
    → O.Inv false (act_on a m)
act_on-silent (resource_event u) m e v = v
act_on-silent (udevd_event w) m e v = act-silent (udevd_event w) m e v
act_on-silent (device_event w) m e v = act-silent (device_event w) m e v
act_on-silent (apid_event w) m e v = act-silent (apid_event w) m e v
act_on-silent (leaves id) m e v = act-silent (leaves id) m e v
act_on-silent (forgets id) m e v = act-silent (forgets id) m e v
act_on-silent denies m e v = act-silent denies m e v
act_on-silent shuts_down m e v = act-silent shuts_down m e v

with_world-Silent : (w : World) (x : Chain) → Quiet w → Silent x → Silent (record x { world = w })
with_world-Silent w x q s = record {
  runner = q;
  resource = s.resource;
  read = s.read;
  boot = s.boot;
}

-- An event that does not say that its service is healthy, or is of another one.
abbrev Harmless : ServiceStateEvent → Type 0
Harmless e = (not e.health.healthy || not (str_eq "udevd" e.service)) ≡ true

handled-silent :
    (e : ServiceStateEvent) (rs : Resources)
    → Harmless e
    → healthy (seen_as (lookup "udevd" rs)) ≡ false
    → healthy (seen_as (lookup "udevd" (handle (some e) true rs))) ≡ false
unfolding handle
handled-silent e rs u h = by_action (e.action == running_action)
  where
    spec : ServiceSpec
    spec = record { running = true; healthy = e.health.healthy; unknown = e.health.unknown }

    inserted :
        (b : Bool)
        → (not e.health.healthy || not b) ≡ true
        → healthy (seen_as (if b then some spec else lookup "udevd" rs)) ≡ false
    inserted true k = ground (arith, k)
    inserted false k = h

    deleted : (b : Bool) → healthy (seen_as (if b then none else lookup "udevd" rs)) ≡ false
    deleted true = refl
    deleted false = h

    by_action :
        (b : Bool)
        → healthy
            (seen_as (lookup "udevd" (if b then insert e.service spec rs else delete e.service rs)))
          ≡ false
    by_action true =
        rw (lookup-insert e.service "udevd" spec rs) (inserted (str_eq "udevd" e.service) u)
    by_action false = rw (lookup-delete e.service "udevd" rs) (deleted (str_eq "udevd" e.service))

with_resources-Silent :
    (rs : Resources) (x : Chain)
    → healthy (seen_as (lookup "udevd" rs)) ≡ false
    → Silent x
    → Silent (with_resources rs x)
unfolding act
with_resources-Silent rs x e s = record {
  runner = s.runner;
  resource = e;
  read = e;
  boot = act-silent (resource_event (seen_as (lookup "udevd" rs))) x.machine s.read s.boot;
}

published_at :
    (i : ℕ) (ps : List ServiceStateEvent)
    → All Unsaid ps
    → (e : ServiceStateEvent) → get_elem? ps i ≡ some e
    → Unsaid e
published_at i [] h e q = cc
published_at zero (p ∷ ps) h e q = ground (arith, h.0, q)
published_at (suc i) (p ∷ ps) h e q = published_at i ps h.1 e q

next-Silent :
    (o : Option ServiceStateEvent) (x : Chain)
    → ((e : ServiceStateEvent) → o ≡ some e → Unsaid e)
    → Silent x
    → Silent (handle_next o x)
next-Silent none x u s = s
next-Silent (some e) x u s =
    with_resources-Silent (handle (some e) true x.resources) (record x { handled = suc x.handled })
      (handled-silent e x.resources (ap (λ b. not b || not (str_eq "udevd" e.service)) (u e refl))
        s.resource)
      (record { runner = s.runner; resource = s.resource; read = s.read; boot = s.boot })

other-Silent :
    (o : Option ServiceStateEvent) (x : Chain)
    → Silent x
    → Silent (if is_foreign o then with_resources (handle o true x.resources) x else x)
unfolding handle
other-Silent none x s = with_resources-Silent x.resources x s.resource s
other-Silent (some e) x s = by_service (not (str_eq "udevd" e.service)) refl
  where
    by_service :
        (b : Bool)
        → not (str_eq "udevd" e.service) ≡ b
        → Silent (if b then with_resources (handle (some e) true x.resources) x else x)
    by_service false q = s
    by_service true q =
        with_resources-Silent (handle (some e) true x.resources) x
          (handled-silent e x.resources (ground (arith, q)) s.resource) s

-- A check that leaves the flag unset fails.
checked :
    (now : ℕ) (err : Option String) (w : World)
    → succeeds err ≡ false
    → Quiet w
    → Quiet (judged now err w)
checked now none w e q = cc
checked now (some m) w e q = judged-Quiet now m w q

one_if-false : (b : Bool) → one_if b ≡ 0 → b ≡ false
one_if-false true h = absurd (omega arith)
one_if-false false h = refl

check-Inv : (now : ℕ) (s : CheckScript) (x : Chain) → Inv x → Inv (turn (checks now s) x)
unfolding turn
check-Inv now s x v =
    let r : Checked = health_check s x.daemon in
    let h : Once x.daemon r = health_check-Once s x.daemon in
    record {
      counts = omega (arith, triggers-append x.commands r.0, v.counts, h.counts);
      silent = λ e.
          let before : x.daemon.triggered ≡ false =
            one_if-false x.daemon.triggered (omega (arith, h.counts, ap one_if e)) in
          let q = v.silent before in
          record {
            runner = checked now r.1.1 x.world (ground (arith, e, h.healthy_after)) q.runner;
            resource = q.resource;
            read = q.read;
            boot = q.boot;
          };
    }

-- What runs no command keeps the invariant if it keeps the way silent.
quietly :
    (x y : Chain)
    → y.commands ≡ x.commands
    → y.daemon ≡ x.daemon
    → (Silent x → Silent y)
    → Inv x
    → Inv y
quietly x y c d f v = record {
  counts = ap triggers_in c ∙ v.counts ∙ ap (λ u. one_if u.triggered) (sym d);
  silent = λ e. f (v.silent (ap (λ u. u.triggered) (sym d) ∙ e));
}

same_after_next :
    (o : Option ServiceStateEvent) (x : Chain)
    → ((handle_next o x).commands ≡ x.commands) × ((handle_next o x).daemon ≡ x.daemon)
same_after_next none x = (refl, refl)
same_after_next (some e) x = (refl, refl)

same_after_other :
    (b : Bool) (rs : Resources) (x : Chain)
    → let y : Chain = if b then with_resources rs x else x in
      (y.commands ≡ x.commands) × (y.daemon ≡ x.daemon)
same_after_other true rs x = (refl, refl)
same_after_other false rs x = (refl, refl)

turn-Inv : (t : Turn) (x : Chain) → Inv x → Inv (turn t x)
unfolding turn H.subscribe_health H.unsubscribe_health H.init_health is_healthy
turn-Inv (checks now s) x v = check-Inv now s x v
turn-Inv (sinks now s m) x v =
    quietly x (record x { world = sink now s m x.world }) refl refl
      (λ q. with_world-Silent (sink now s m x.world) x (sink-Quiet now s m x.world q.runner) q) v
turn-Inv (subscribes ch) x v =
    let h : HealthState = H.subscribe_health ch x.world.runner.health_state in
    quietly x (record x { world = with_state h x.world }) refl refl
      (λ q.
        with_world-Silent (with_state h x.world) x
          (with_state-Quiet h x.world q.runner.verdict q.runner) q)
      v
turn-Inv (unsubscribes ch) x v =
    let h : HealthState = H.unsubscribe_health ch x.world.runner.health_state in
    quietly x (record x { world = with_state h x.world }) refl refl
      (λ q.
        with_world-Silent (with_state h x.world) x
          (with_state-Quiet h x.world q.runner.verdict q.runner) q)
      v
turn-Inv (restarts now) x v =
    let h : HealthState = H.init_health now x.world.runner.health_state in
    quietly x (record x { world = with_state h x.world }) refl refl
      (λ q. with_world-Silent (with_state h x.world) x (with_state-Quiet h x.world refl q.runner) q)
      v
turn-Inv (takes now ch) x v =
    let w : World = taken now (receive ch x.world.health_chans) x.world in
    quietly x (record x { world = w }) refl refl
      (λ q. with_world-Silent w x (taken-Quiet now ch x.world q.runner) q) v
turn-Inv next_event x v =
    let o : Option ServiceStateEvent = get_elem? x.world.published x.handled in
    quietly x (handle_next o x) (same_after_next o x).0 (same_after_next o x).1
      (λ q. next-Silent o x (published_at x.handled x.world.published q.runner.events) q) v
turn-Inv (other_event o) x v =
    let rs : Resources = handle o true x.resources in
    let same = same_after_other (is_foreign o) rs x in
    quietly x (if is_foreign o then with_resources rs x else x) same.0 same.1 (other-Silent o x) v
turn-Inv (acts a) x v =
    quietly x (record x { machine = act_on a x.machine }) refl refl
      (λ q. record {
        runner = q.runner;
        resource = q.resource;
        read = same_resource a x.machine q.read;
        boot = act_on-silent a x.machine q.read q.boot;
      })
      v

run-Inv : (ts : List Turn) (x : Chain) → Inv x → Inv (run ts x)
unfolding run
run-Inv [] x v = v
run-Inv (t ∷ ts) x v = run-Inv ts (turn t x) (turn-Inv t x v)

power_on-Inv : (extra : ℕ) (caps : ℕ → ℕ) → Inv (power_on extra caps)
unfolding new_service_runner is_healthy lookup
power_on-Inv extra caps = record {
  counts = refl;
  silent = λ e. record {
    runner = record { verdict = refl; changes = λ ch. tt; events = tt };
    resource = refl;
    read = refl;
    boot = record { ready_after = λ q. cc; loaded_after = λ q. cc };
  };
}

-- From power-on, whatever the goroutines between the health check of udevd and the controller of apid do,
-- and in whatever order: if apid is loaded, the events of the devices have been triggered in full,
-- and only once.
pub loaded_after_triggers :
    (extra : ℕ) (caps : ℕ → ℕ) (ts : List Turn)
    → is_some (lookup "apid" (run ts (power_on extra caps)).machine.services.state) ≡ true
    → triggers_in (run ts (power_on extra caps)).commands ≡ 1
loaded_after_triggers extra caps ts e =
    let x : Chain = run ts (power_on extra caps) in
    let v : Inv x = run-Inv ts (power_on extra caps) (power_on-Inv extra caps) in
    elim (Bool-cases x.daemon.triggered) [
      | inl set ↦ v.counts ∙ ap one_if set
      | inr unset ↦ cc ((v.silent unset).boot.loaded_after e)
    ]
