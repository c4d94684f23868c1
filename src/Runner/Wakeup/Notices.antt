-- ===== src/Runner/Wakeup/Notices.antt =====
-- State updates and notifications keep the invariant.
use tailscale_os.Base.{ℕ, ◌<◌, ◌≡◌, inl, inr, true, String, count, ltb, arith, Bool-cases}
use tailscale_os.Chan.{send_all_wakes, send_all-keeps, cap-send_all}
use tailscale_os.History.{ServiceState}
use tailscale_os.Runner.{
  StateEvent, up, down, done, in_state, subscribers, notify_event, record_state,
}
use tailscale_os.Runner.Wakeup.{pending, System, records, notifies, less, act}
use tailscale_os.Runner.Wakeup.Owed.{Owed, Inv}

module _ (hc : ℕ) where
  module _ (x : System) (v : Inv hc x) where
    pub records-Inv :
        (now : ℕ) (s : ServiceState) (m : String) → Inv hc (act hc (records now s m) x)
    unfolding act record_state subscribers
    records-Inv now s m = record {
      room = v.room;
      health_room = v.health_room;
      health_subscribed = v.health_subscribed;
      owed = owing;
    }
      where
        owing :
            (ev : StateEvent) (ch : ℕ)
            → 0 < count ch (subscribers ev (record_state now s m x.world).runner)
            → in_state ev (record_state now s m x.world).runner ≡ true
            → Owed hc (act hc (records now s m) x) ev ch
        owing up ch c e = inr (inl (rw e (omega arith)))
        owing down ch c e = inr (inl (rw e (omega arith)))
        owing done ch c e = inr (inl (rw e (omega arith)))

    notified :
        (ev0 ev : StateEvent) (ch : ℕ)
        → 0 < count ch (subscribers ev x.world.runner)
        → Owed hc x ev ch
        → Owed hc
            (record { world = notify_event ev0 x.world; under_way = less ev0 x.under_way })
            ev
            ch
    unfolding notify_event
    notified up up ch c o =
        inl (send_all_wakes tt (subscribers up x.world.runner) x.world.chans ch (v.room ch) c)
    notified down down ch c o =
        inl (send_all_wakes tt (subscribers down x.world.runner) x.world.chans ch (v.room ch) c)
    notified done done ch c o =
        inl (send_all_wakes tt (subscribers done x.world.runner) x.world.chans ch (v.room ch) c)
    notified ev0 ev ch c (inl b) =
        inl (omega (arith, send_all-keeps tt (subscribers ev0 x.world.runner) x.world.chans ch))
    notified up down ch c (inr o) = inr o
    notified up done ch c (inr o) = inr o
    notified down up ch c (inr o) = inr o
    notified down done ch c (inr o) = inr o
    notified done up ch c (inr o) = inr o
    notified done down ch c (inr o) = inr o

    pub notifies-Inv : (ev0 : StateEvent) → Inv hc (act hc (notifies ev0) x)
    unfolding act notify_event
    notifies-Inv ev0 = elim (Bool-cases (ltb 0 (pending ev0 x.under_way))) [
      | inr idle ↦ rw (idle, act) v
      | inl busy ↦
          rw (busy, act)
            (record {
              room = λ ch. omega (
                arith,
                v.room ch,
                cap-send_all tt (subscribers ev0 x.world.runner) x.world.chans ch,
              );
              health_room = v.health_room;
              health_subscribed = v.health_subscribed;
              owed = λ ev ch c e. notified ev0 ev ch c (v.owed ev ch c e);
            })
    ]
