-- ===== src/Runner/Wakeup/Verdicts.antt =====
-- Health verdicts keep the invariant.
use tailscale_os.Base.{
  ℕ, ◌<◌, ◌≡◌, refl, sym, ◌∙◌, inl, inr, Bool, true, String, length, count, Bool-cases,
}
use tailscale_os.Chan.{Store}
use tailscale_os.Health.{StateChange, HealthState, update_health, init_health}
use tailscale_os.Health.Notify.{update_health_quiet, update_health_wakes}
use tailscale_os.Runner.{StateEvent, up, down, done, in_state, subscribers, is_running}
use tailscale_os.Runner.Wakeup.{System, judges, restarts_health, set_health, act}
use tailscale_os.Runner.Wakeup.Owed.{Owed, Inv}
use tailscale_os.Runner.Wakeup.Frame.{
  verdict-dec, update_health_frame, in_state-health, subscribers-health, in_state_message,
  in_state_init,
}

module _ (hc : ℕ) where
  module _ (x : System) (v : Inv hc x) where
    -- Only waiters for `up` are told by a health report.
    judged :
        (h : HealthState) (st : Store StateChange)
        → 0 < length (st hc).buffer
        → (ev : StateEvent) (ch : ℕ) → 0 < count ch (subscribers ev x.world.runner)
        → in_state ev (record (x.world.runner) { health_state = h }) ≡ true
        → Owed hc (record x { world = set_health x.world (h, st) }) ev ch
    unfolding in_state
    judged h st full down ch c e = elim (v.owed down ch c e) [
      | inl b ↦ inl b
      | inr (inl p) ↦ inr (inl p)
      | inr (inr q) ↦ cc
    ]
    judged h st full done ch c e = elim (v.owed done ch c e) [
      | inl b ↦ inl b
      | inr (inl p) ↦ inr (inl p)
      | inr (inr q) ↦ cc
    ]
    judged h st full up ch c e = elim (Bool-cases (is_running x.world.runner.state)) [
      | inl runs ↦ inr (inr (refl, runs, full))
      | inr stopped ↦ elim (v.owed up ch c (sym (in_state-health x.world.runner h stopped) ∙ e)) [
        | inl b ↦ inl b
        | inr (inl p) ↦ inr (inl p)
        | inr (inr q) ↦ cc
      ]
    ]

    -- A change of the health that leaves a report to be made.
    health_full :
        (h : HealthState) (st : Store StateChange)
        → 0 < count hc h.subscribers
        → 0 < (st hc).cap
        → 0 < length (st hc).buffer
        → Inv hc (record x { world = set_health x.world (h, st) })
    health_full h st sub cap full = record {
      room = v.room;
      health_room = cap;
      health_subscribed = sub;
      owed =
          λ ev ch c e. judged h st full ev ch (rw (← subscribers-health ev x.world.runner h) c) e;
    }

    -- A change of the health after which nothing holds that did not hold before.
    health_kept :
        (h : HealthState)
        → 0 < count hc h.subscribers
        → ((ev : StateEvent)
            → in_state ev (record (x.world.runner) { health_state = h }) ≡ true
            → in_state ev x.world.runner ≡ true)
        → Inv hc (record x { world = set_health x.world (h, x.world.health_chans) })
    health_kept h sub less_holds = record {
      room = v.room;
      health_room = v.health_room;
      health_subscribed = sub;
      owed = λ ev ch c e.
          v.owed ev ch (rw (← subscribers-health ev x.world.runner h) c) (less_holds ev e);
    }

    pub judges-Inv : (now : ℕ) (b : Bool) (m : String) → Inv hc (act hc (judges now b m) x)
    unfolding act
    judges-Inv now b m = elim (verdict-dec h.status.healthy b) [
      | yes e ↦ rw (update_health_quiet now b m h st e) (
          health_kept (record h { status = record (h.status) { last_message = m } })
            v.health_subscribed (in_state_message m x.world.runner))
      | no ne ↦
          health_full (update_health now b m h st).0 (update_health now b m h st).1
            (rw (update_health_frame now b m h st hc).0 v.health_subscribed)
            (rw (update_health_frame now b m h st hc).1 v.health_room)
            (update_health_wakes now b m h st hc ne v.health_subscribed v.health_room)
    ]
      where
        open x.world.runner use {health_state as h}
        open x.world use {health_chans as st}

    pub restarts_health-Inv : (now : ℕ) → Inv hc (act hc (restarts_health now) x)
    unfolding act init_health
    restarts_health-Inv now =
        health_kept (init_health now x.world.runner.health_state) v.health_subscribed
          (in_state_init now x.world.runner)
