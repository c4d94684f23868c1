-- ===== src/Runner/Update.antt =====
-- What `UpdateState` does to the runner, to the event stream and to the waiters.
use tailscale_os.Base.{
  ℕ, ◌<◌, ◌≤◌, ◌≡◌, refl, sym, ap, ◌∙◌, Bool, true, false, [], ◌∷◌, ◌++◌, String, length, count,
  if◌then◌else◌, arith, ◌&&◌,
}
use tailscale_os.Chan.{send_all_wakes, send_all-keeps, cap-send_all}
use tailscale_os.History.{ServiceState, ServiceEvent, event_as_proto}
use tailscale_os.Health.{StateChange}
use tailscale_os.Runner.{
  StateEvent, up, down, done, World, in_state, subscribers, notify_event, notify_if, update_state,
  state_event, record_state, publish_event, health_update, health_event, is_running, record_health,
  push_health,
}

-- A notification changes the channels of the waiters alone.
notify_if_frame :
    (b : Bool) (ev : StateEvent) (w : World)
    → let w' = notify_if b ev w in
      (w'.runner ≡ w.runner) × (w'.published ≡ w.published) × (w'.health_chans ≡ w.health_chans)
unfolding notify_if notify_event
notify_if_frame true ev w = (refl, refl, refl)
notify_if_frame false ev w = (refl, refl, refl)

notify_if-keeps :
    (b : Bool) (ev : StateEvent) (w : World) (ch : ℕ)
    → (length (w.chans ch).buffer ≤ length ((notify_if b ev w).chans ch).buffer)
      × (((notify_if b ev w).chans ch).cap ≡ (w.chans ch).cap)
unfolding notify_if notify_event
notify_if-keeps true ev w ch = (
  send_all-keeps tt (subscribers ev w.runner) w.chans ch,
  cap-send_all tt (subscribers ev w.runner) w.chans ch,
)
notify_if-keeps false ev w ch = (omega arith, refl)

notify_if_wakes :
    (b : Bool) (ev : StateEvent) (w : World) (ch : ℕ)
    → b ≡ true
    → 0 < (w.chans ch).cap
    → 0 < count ch (subscribers ev w.runner)
    → 0 < length ((notify_if b ev w).chans ch).buffer
unfolding notify_if notify_event
notify_if_wakes true ev w ch e c on = send_all_wakes tt (subscribers ev w.runner) w.chans ch c on
notify_if_wakes false ev w ch e c on = cc

publish_event_frame :
    (e : ServiceEvent) (w : World)
    → let w' = publish_event e w in
      (w'.runner ≡ w.runner)
      × (w'.chans ≡ w.chans)
      × (w'.health_chans ≡ w.health_chans)
      × (w'.published ≡ (
          if w.runner.has_runtime
          then w.published ++ (event_as_proto w.runner.id e ∷ [])
          else w.published))
unfolding publish_event
publish_event_frame e w = ground arith

module _ (now : ℕ) (s : ServiceState) (m : String) (w : World) where
  abbrev recorded : World
  recorded = record_state now s m w

  abbrev sent : World
  sent = publish_event (state_event now s m w.runner) recorded

  abbrev told_up : World
  told_up = notify_if (in_state up recorded.runner) up sent

  abbrev told_down : World
  told_down = notify_if (in_state down recorded.runner) down told_up

  pub update_state_frame :
      let w' = update_state now s m w in
      (w'.runner ≡ recorded.runner)
      × (w'.health_chans ≡ w.health_chans)
      × (w'.published ≡ (
          if w.runner.has_runtime
          then w.published ++ (event_as_proto w.runner.id (state_event now s m w.runner) ∷ [])
          else w.published))
  unfolding update_state
  update_state_frame =
      let a = publish_event_frame (state_event now s m w.runner) recorded in
      let b = notify_if_frame (in_state up recorded.runner) up sent in
      let c = notify_if_frame (in_state down recorded.runner) down told_up in
      let d = notify_if_frame (in_state done recorded.runner) done told_down in
      (d.0 ∙ c.0 ∙ b.0 ∙ a.0, d.2 ∙ c.2 ∙ b.2 ∙ a.2, d.1 ∙ c.1 ∙ b.1 ∙ a.3)

  module _ (ch : ℕ) where
    abbrev signals : World → ℕ
    signals v = length (v.chans ch).buffer

    -- A stage of the update with the runner of the new state and the channel's capacity.
    abbrev Stage : World → Type 0
    Stage v = (v.runner ≡ recorded.runner) × ((v.chans ch).cap ≡ (w.chans ch).cap)

    sent-Stage : Stage sent
    unfolding record_state
    sent-Stage =
        let a = publish_event_frame (state_event now s m w.runner) recorded in
        (a.0, ap (λ c. (c ch).cap) a.1)

    notify_if-Stage : (b : Bool) (ev : StateEvent) (v : World) → Stage v → Stage (notify_if b ev v)
    notify_if-Stage b ev v g =
        ((notify_if_frame b ev v).0 ∙ g.0, (notify_if-keeps b ev v ch).1 ∙ g.1)

    same_subscribers : (ev : StateEvent) → subscribers ev recorded.runner ≡ subscribers ev w.runner
    unfolding subscribers record_state
    same_subscribers up = refl
    same_subscribers down = refl
    same_subscribers done = refl

    told :
        (ev : StateEvent) (v : World)
        → Stage v
        → in_state ev (update_state now s m w).runner ≡ true
        → 0 < (w.chans ch).cap
        → 0 < count ch (subscribers ev w.runner)
        → 0 < signals (notify_if (in_state ev recorded.runner) ev v)
    told ev v g e room on =
        notify_if_wakes (in_state ev recorded.runner) ev v ch
          (sym (ap (in_state ev) update_state_frame.0) ∙ e) (omega (arith, g.1, room))
          (rw (g.0, same_subscribers ev) on)

    told_up-Stage : Stage told_up
    told_up-Stage = notify_if-Stage (in_state up recorded.runner) up sent sent-Stage

    told_down-Stage : Stage told_down
    told_down-Stage = notify_if-Stage (in_state down recorded.runner) down told_up told_up-Stage

    -- `UpdateState` gives the signal to every waiter of every event that the new state brings about, as
    -- far as its channel can hold one.
    pub update_state_wakes :
        (ev : StateEvent)
        → in_state ev (update_state now s m w).runner ≡ true
        → 0 < (w.chans ch).cap
        → 0 < count ch (subscribers ev w.runner)
        → 0 < signals (update_state now s m w)
    unfolding update_state
    update_state_wakes up e room on = omega (
      arith,
      told up sent sent-Stage e room on,
      notify_if-keeps (in_state down recorded.runner) down told_up ch,
      notify_if-keeps (in_state done recorded.runner) done told_down ch,
    )
    update_state_wakes down e room on = omega (
      arith,
      told down told_up told_up-Stage e room on,
      notify_if-keeps (in_state done recorded.runner) done told_down ch,
    )
    update_state_wakes done e room on = told done told_down told_down-Stage e room on

    -- No update takes a signal from a waiter, or changes who waits for what.
    pub update_state-keeps :
        (signals w ≤ signals (update_state now s m w))
        × (((update_state now s m w).chans ch).cap ≡ (w.chans ch).cap)
        × ((ev : StateEvent)
            → subscribers ev (update_state now s m w).runner ≡ subscribers ev w.runner)
    unfolding update_state record_state
    update_state-keeps =
        let a = publish_event_frame (state_event now s m w.runner) recorded in
        let b = notify_if-keeps (in_state up recorded.runner) up sent ch in
        let c = notify_if-keeps (in_state down recorded.runner) down told_up ch in
        let d = notify_if-keeps (in_state done recorded.runner) done told_down ch in
        (
          omega (arith, ap (λ st. length (st ch).buffer) a.1, b.0, c.0, d.0),
          d.1 ∙ c.1 ∙ b.1 ∙ sent-Stage.1,
          λ ev. ap (subscribers ev) update_state_frame.0 ∙ same_subscribers ev,
        )

module _ (now : ℕ) (c : StateChange) (w : World) where
  abbrev reported : World
  reported = notify_if (in_state up (push_health now c w).runner) up (push_health now c w)

  guarded :
      (b : Bool)
      → let w' : World = if b then publish_event (health_event now c w.runner) reported else w in
        (w'.runner ≡ (if b then push_health now c w else w).runner)
        × (w'.published ≡ (
            if b && w.runner.has_runtime
            then w.published ++ (event_as_proto w.runner.id (health_event now c w.runner) ∷ [])
            else w.published))
  guarded false = (refl, refl)
  guarded true =
      let n = notify_if_frame (in_state up (push_health now c w).runner) up (push_health now c w) in
      let a = publish_event_frame (health_event now c w.runner) reported in
      (
        a.0 ∙ n.0,
        a.3
            ∙ ap
                (λ r.
                  if r.has_runtime
                  then reported.published
                    ++ (event_as_proto r.id (health_event now c w.runner) ∷ [])
                  else reported.published)
                n.0
            ∙ ap
                (λ ps.
                  if w.runner.has_runtime
                  then ps ++ (event_as_proto w.runner.id (health_event now c w.runner) ∷ [])
                  else ps)
                n.1,
      )

  -- A health report for a running service adds its event to the history and publishes it; for any other
  -- it does nothing.
  pub health_update_frame :
      let w' = health_update now c w in
      (w'.runner ≡ (record_health now c w).runner)
      × (w'.published ≡ (
          if is_running w.runner.state && w.runner.has_runtime
          then w.published ++ (event_as_proto w.runner.id (health_event now c w.runner) ∷ [])
          else w.published))
  unfolding health_update record_health
  health_update_frame = guarded (is_running w.runner.state)

  -- Neither does a report.
  pub health_update-keeps :
      (ch : ℕ)
      → (length (w.chans ch).buffer ≤ length ((health_update now c w).chans ch).buffer)
        × (((health_update now c w).chans ch).cap ≡ (w.chans ch).cap)
  unfolding health_update
  health_update-keeps ch = kept (is_running w.runner.state)
    where
      kept :
          (b : Bool)
          → let w' : World =
              if b then publish_event (health_event now c w.runner) reported else w in
            (length (w.chans ch).buffer ≤ length (w'.chans ch).buffer)
            × ((w'.chans ch).cap ≡ (w.chans ch).cap)
      kept false = (omega arith, refl)
      kept true =
          let a = publish_event_frame (health_event now c w.runner) reported in
          let b =
            notify_if-keeps (in_state up (push_health now c w).runner) up (push_health now c w)
              ch in
          (
            omega (arith, ap (λ st. length (st ch).buffer) a.1, b.0),
            ap (λ st. (st ch).cap) a.1 ∙ b.1,
          )
