-- ===== src/Runner/Wakeup/Waiters.antt =====
-- Waiters that come and go keep the invariant.
use tailscale_os.Base.{
  ℕ, ◌<◌, ◌≡◌, inl, inr, true, false, List, [], ◌∷◌, ◌++◌, count, arith, Bool-cases,
}
use tailscale_os.Slice.{remove_all}
use tailscale_os.Slice.Removal.{count-remove_all}
use tailscale_os.Chan.{cap-try_send, length-try_send}
use tailscale_os.Runner.State.{
  same, eq_of_same, subscribers-set, set_subscribers-state, in_state-set,
}
use tailscale_os.Runner.{StateEvent, in_state, subscribers, set_subscribers, subscribe, unsubscribe}
use tailscale_os.Runner.Wakeup.{System, subscribes, unsubscribes, act}
use tailscale_os.Runner.Wakeup.Owed.{Inv}

module _ (hc : ℕ) where
  module _ (x : System) (v : Inv hc x) where
    -- Other lists of subscribers, where whoever is on them was on them before if the event holds.
    resubscribed :
        (ev0 : StateEvent) (chs : List ℕ)
        → ((ev : StateEvent) (ch : ℕ)
            → 0 < count ch (subscribers ev (set_subscribers ev0 chs x.world.runner))
            → in_state ev x.world.runner ≡ true
            → 0 < count ch (subscribers ev x.world.runner))
        → Inv hc (record x {
          world = record (x.world) { runner = set_subscribers ev0 chs x.world.runner };
        })
    resubscribed ev0 chs was_on = record {
      room = v.room;
      health_room = v.health_room;
      health_subscribed = rw (set_subscribers-state ev0 chs x.world.runner).1 v.health_subscribed;
      owed = λ ev ch c e.
          let e' : in_state ev x.world.runner ≡ true =
            rw (in_state-set ev0 ev chs x.world.runner) at e in
          rw (set_subscribers-state ev0 chs x.world.runner).0 (v.owed ev ch (was_on ev ch c e') e');
    }

    new_subscriber :
        (ev0 : StateEvent) (ch0 : ℕ) (ev : StateEvent) (ch : ℕ)
        → in_state ev0 x.world.runner ≡ false
        → 0
          < count ch (
              subscribers ev
                (set_subscribers ev0 (subscribers ev0 x.world.runner ++ (ch0 ∷ [])) x.world.runner))
        → in_state ev x.world.runner ≡ true
        → 0 < count ch (subscribers ev x.world.runner)
    new_subscriber ev0 ch0 ev ch awaits c e = elim (Bool-cases (same ev0 ev)) [
      | inl q ↦ cc (eq_of_same ev0 ev q)
      | inr q ↦
          rw
            (
              subscribers-set ev0 ev (subscribers ev0 x.world.runner ++ (ch0 ∷ [])) x.world.runner,
              q,
            )
            at c
    ]

    pub subscribes-Inv : (ev0 : StateEvent) (ch0 : ℕ) → Inv hc (act hc (subscribes ev0 ch0) x)
    unfolding act subscribe
    subscribes-Inv ev0 ch0 = elim (Bool-cases (in_state ev0 x.world.runner)) [
      | inl holds ↦
          rw (holds, act, subscribe)
            (record {
              room =
                  λ ch. ground (arith, v.room ch, v.room ch0, cap-try_send tt (x.world.chans ch0));
              health_room = v.health_room;
              health_subscribed = v.health_subscribed;
              owed = λ ev ch c e. elim (v.owed ev ch c e) [
                | inl b ↦ inl (ground (arith, length-try_send tt (x.world.chans ch0)))
                | inr o ↦ inr o
              ];
            })
      | inr awaits ↦
          rw (awaits, act, subscribe)
            (resubscribed ev0 (subscribers ev0 x.world.runner ++ (ch0 ∷ []))
              (λ ev ch c e. new_subscriber ev0 ch0 ev ch awaits c e))
    ]

    pub unsubscribes-Inv : (ev0 : StateEvent) (ch0 : ℕ) → Inv hc (act hc (unsubscribes ev0 ch0) x)
    unfolding act unsubscribe
    unsubscribes-Inv ev0 ch0 =
        resubscribed ev0 (remove_all ch0 (subscribers ev0 x.world.runner)) λ ev ch c e. ground (
          arith,
          c,
          eq_of_same ev0 ev,
          subscribers-set ev0 ev (remove_all ch0 (subscribers ev0 x.world.runner)) x.world.runner,
          count-remove_all ch0 (subscribers ev0 x.world.runner) ch,
        )
