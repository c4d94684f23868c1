-- ===== src/Boot/Chain/Starts.antt =====
-- From a check that finds udevd healthy to the start of apid.
use tailscale_os.Base.{
  ℕ, ◌<◌, ◌≡◌, refl, ap, ◌∙◌, Bool, true, false, ◌&&◌, Option, none, some, List, [], ◌∷◌, ◌++◌,
  String, get_elem?, length, lookup, if◌then◌else◌, arith,
}
use tailscale_os.Chan.{Store, update, try_send, send_all, receive}
use tailscale_os.Health.{
  Status, StateChange, is_healthy, is_unknown, next_status, changes, update_health, record_round,
}
use tailscale_os.History.{running, event_as_proto, ServiceStateEvent, ServiceEvent}
use tailscale_os.Runner.{World, is_running, health_update, health_event}
use tailscale_os.Runner.Update.{health_update_frame}
use tailscale_os.Controllers.Lookup.{lookup-handle_own}
use tailscale_os.Controllers.Services.{Resources, handle}
use tailscale_os.Udevd.{CheckScript, health_check}
use tailscale_os.Services as S
use tailscale_os.Boot.Singleton.{open_for_new}
use tailscale_os.Boot.Starts.{is_well, run_starts}
use tailscale_os.Boot.Order.{resource_event, device_event, apid_event}
use tailscale_os.Boot.Order as O
use tailscale_os.Boot.Chain.{
  Chain, Turn, checks, takes, next_event, acts, judged, taken, seen_as, handle_next, turn, run,
}

-- udevd runs and was not found healthy, the channel of its health changes is empty and has room, its
-- events are handled, and apid was not started and may be.
pub record Waits (ch : ℕ) (x : Chain) : Type 0 where
  pub runs : x.world.runner.state ≡ running
  pub on_stream : x.world.runner.has_runtime ≡ true
  pub named : x.world.runner.id ≡ "udevd"
  pub unhealthy : is_healthy x.world.runner.health_state.status ≡ false
  pub watched : x.world.runner.health_state.subscribers ≡ ch ∷ []
  pub empty : (x.world.health_chans ch).buffer ≡ []
  pub room : 0 < (x.world.health_chans ch).cap
  pub all_handled : x.handled ≡ length x.world.published
  pub undone : x.machine.device_done ≡ false
  pub unstarted : x.machine.apid_started ≡ false
  pub accepts : open_for_new x.machine.services ≡ true

abbrev change_of : ℕ → Status → StateChange
change_of now s = record { old = s; new = next_status now true "" s }

unhealthy_changes : (s : Status) → is_healthy s ≡ false → changes s.healthy true ≡ true
unfolding is_healthy changes
unhealthy_changes s e = after s.healthy e
  where
    after :
        (o : Option Bool)
        → (elim o as (λ x. Bool) [ none ↦ false | some b ↦ b ]) ≡ false
        → changes o true ≡ true
    after none e = refl
    after (some true) e = cc
    after (some false) e = refl

healthy_next :
    (now : ℕ) (s : Status) → is_healthy s ≡ false → is_healthy (next_status now true "" s) ≡ true
unfolding next_status is_healthy
healthy_next now s e = rw (unhealthy_changes s e) refl

-- What the channel of the only subscriber holds after a send, and what is taken from it.
buffer-send_all :
    (c : StateChange) (ch : ℕ) (st : Store StateChange)
    → (st ch).buffer ≡ []
    → 0 < (st ch).cap
    → (send_all c (ch ∷ []) st ch).buffer ≡ c ∷ []
unfolding send_all try_send
buffer-send_all c ch st e room = ground (arith, e, ap length e)

receive_lem :
    (c : StateChange) (ch : ℕ) (st : Store StateChange)
    → (st ch).buffer ≡ c ∷ []
    → receive ch st ≡ some (c, update st ch (record (st ch) { buffer = [] }))
unfolding receive
receive_lem c ch st e = rw (e, receive) refl

get_elem?-last :
    (ps : List ServiceStateEvent) (e : ServiceStateEvent)
    → get_elem? (ps ++ (e ∷ [])) (length ps) ≡ some e
get_elem?-last [] e = refl
get_elem?-last (p ∷ ps) e = get_elem?-last ps e

-- The verdict of a check, its way to the resource of udevd, and the two controllers.
abbrev pub steps : ℕ → ℕ → ℕ → CheckScript → List Turn
steps at now ch s =
    checks at s ∷ takes now ch ∷ next_event ∷ acts (device_event none) ∷ acts (apid_event none) ∷ []

module _ (at now ch : ℕ) (x : Chain) (s : CheckScript) (w : Waits ch x) where
  abbrev checked : World
  checked = judged at none x.world

  abbrev change : StateChange
  change = change_of at x.world.runner.health_state.status

  abbrev sent : Store StateChange
  sent = send_all change (ch ∷ []) x.world.health_chans

  abbrev rest : Store StateChange
  rest = update sent ch (record (sent ch) { buffer = [] })

  -- The runner with the change in hand.
  abbrev informed : World
  informed = record checked { health_chans = rest }

  chans-checked : checked.health_chans ≡ sent
  unfolding record_round update_health
  chans-checked =
      pick (changes x.world.runner.health_state.status.healthy true)
        (unhealthy_changes x.world.runner.health_state.status w.unhealthy)
      ∙ ap (λ chs. send_all change chs x.world.health_chans) w.watched
    where
      pick :
          (b : Bool)
          → b ≡ true
          → (if b
              then send_all change x.world.runner.health_state.subscribers x.world.health_chans
              else x.world.health_chans)
            ≡ send_all change x.world.runner.health_state.subscribers x.world.health_chans
      pick true e = refl
      pick false e = cc

  received : receive ch checked.health_chans ≡ some (change, rest)
  received =
      ap (receive ch) chans-checked
      ∙ receive_lem change ch sent (buffer-send_all change ch x.world.health_chans w.empty w.room)

  abbrev told : World
  told = health_update now change informed

  abbrev event : ServiceEvent
  event = health_event now change informed.runner

  published-told : told.published ≡ x.world.published ++ (event_as_proto "udevd" event ∷ [])
  unfolding is_running
  published-told =
      (health_update_frame now change informed).1
      ∙ pick (is_running x.world.runner.state && x.world.runner.has_runtime) x.world.runner.id
          (ap (λ r. is_running r && x.world.runner.has_runtime) w.runs ∙ w.on_stream) w.named
    where
      pick :
          (b : Bool) (id : String)
          → b ≡ true
          → id ≡ "udevd"
          → (if b then x.world.published ++ (event_as_proto id event ∷ []) else x.world.published)
            ≡ x.world.published ++ (event_as_proto "udevd" event ∷ [])
      pick true id e q = ap (λ i. x.world.published ++ (event_as_proto i event ∷ [])) q
      pick false id e q = cc

  next : get_elem? told.published x.handled ≡ some (event_as_proto "udevd" event)
  next =
      ap (λ ps. get_elem? ps x.handled) published-told
      ∙ ap (get_elem? (x.world.published ++ (event_as_proto "udevd" event ∷ []))) w.all_handled
      ∙ get_elem?-last x.world.published (event_as_proto "udevd" event)

  seen-handle :
      (rs : Resources)
      → seen_as (lookup "udevd" (handle (some (event_as_proto "udevd" event)) true rs))
        ≡ some is_well
  unfolding health_event is_running
  seen-handle rs =
      ap seen_as (lookup-handle_own "udevd" event rs)
      ∙ pick (is_running x.world.runner.state) (is_healthy event.health) (is_unknown event.health)
          (ap is_running w.runs) (healthy_next at x.world.runner.health_state.status w.unhealthy)
    where
      pick :
          (b c u : Bool)
          → b ≡ true
          → c ≡ true
          → seen_as (if b then some (record { running = true; healthy = c; unknown = u }) else none)
            ≡ some is_well
      pick true c u e q = ap (λ h. some (record { running = true; healthy = h })) q
      pick false c u e q = cc

  abbrev reported : Option String → World
  reported e = taken now (receive ch (judged at e x.world).health_chans) (judged at e x.world)

  next-reported :
      (health_check s x.daemon).1.1 ≡ none
      → get_elem? (reported (health_check s x.daemon).1.1).published x.handled
        ≡ some (event_as_proto "udevd" event)
  next-reported ok =
      ap (λ e. get_elem? (reported e).published x.handled) ok
      ∙ ap (λ o. get_elem? (taken now o checked).published x.handled) received
      ∙ next

  machine-run :
      (health_check s x.daemon).1.1 ≡ none
      → (run (steps at now ch s) x).machine
        ≡ O.run (resource_event (some is_well) ∷ device_event none ∷ apid_event none ∷ []) x.machine
  unfolding run turn O.run
  machine-run ok =
      ap (λ m. O.act (apid_event none) (O.act (device_event none) m))
        (ap
            (λ o.
              (handle_next o (record x {
                daemon = (health_check s x.daemon).1.0;
                commands = x.commands ++ (health_check s x.daemon).0;
                world = reported (health_check s x.daemon).1.1;
              })).machine)
            (next-reported ok)
          ∙ ap (λ o. O.act (resource_event o) x.machine) (seen-handle x.resources))

-- While udevd runs and was not found healthy, the change of its health has an empty channel, its events
-- are handled, and apid was not started and may be: once a check of udevd succeeds, its verdict is taken
-- from the channel, the event of it is handled, and the controllers of the devices and of apid
-- each have an event whose calls succeed, apid runs.
pub run_starts_apid :
    (at now ch : ℕ) (x : Chain) (s : CheckScript) (w : Waits ch x)
    → (health_check s x.daemon).1.1 ≡ none
    → let y = (run (steps at now ch s) x).machine in
      (S.is_running "apid" y.services ≡ some true) × (y.apid_started ≡ true)
run_starts_apid at now ch x s w ok =
    rw (machine-run at now ch x s w ok) (run_starts x.machine w.undone w.unstarted w.accepts)
