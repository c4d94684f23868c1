-- ===== src/Runner/Wakeup/Reports.antt =====
-- Health reports keep the invariant.
use tailscale_os.Base.{ℕ, ◌+◌, ◌≡◌, sym, ◌∙◌, inl, inr, true, ◌&&◌, arith, Option-cases}
use tailscale_os.Chan.{Store, receive}
use tailscale_os.Health.{StateChange}
use tailscale_os.Runner.State.{
  record_health_frame, subscribers-record_health, in_state-record_health,
}
use tailscale_os.Runner.{StateEvent, up, down, done, World, in_state, record_health, is_running}
use tailscale_os.Runner.Wakeup.{one_if, System, reports, act}
use tailscale_os.Runner.Wakeup.Owed.{Owed, Inv}
use tailscale_os.Runner.Wakeup.Frame.{cap-receive}

module _ (hc : ℕ) where
  module _ (x : System) (v : Inv hc x) where
    abbrev reported : ℕ → StateChange → Store StateChange → System
    reported now change st =
        let w : World = record_health now change (record (x.world) { health_chans = st }) in
        record {
          world = w;
          under_way = record (x.under_way) {
            ups = one_if (is_running w.runner.state && in_state up w.runner) + x.under_way.ups;
          };
        }

    module _ (now : ℕ) (change : StateChange) (st : Store StateChange) where
      abbrev taken : World
      taken = record (x.world) { health_chans = st }

      reported-Owed :
          (ev : StateEvent) (ch : ℕ)
          → in_state ev x.world.runner ≡ true
          → Owed hc x ev ch
          → Owed hc (reported now change st) ev ch
      reported-Owed ev ch e (inl b) = inl (rw (record_health_frame now change taken).2 b)
      reported-Owed up ch e (inr (inl p)) = inr (inl (omega arith))
      reported-Owed down ch e (inr (inl p)) = inr (inl p)
      reported-Owed done ch e (inr (inl p)) = inr (inl p)
      reported-Owed up ch e (inr (inr (u, runs, full))) =
          let here : is_running (record_health now change taken).runner.state ≡ true =
            rw (record_health_frame now change taken).0 runs in
          let holds : in_state up (record_health now change taken).runner ≡ true =
            in_state-record_health now change taken up ∙ e in
          inr (inl (rw (here, holds) (omega arith)))
      reported-Owed down ch e (inr (inr q)) = cc
      reported-Owed done ch e (inr (inr q)) = cc

      reported-Inv : (st hc).cap ≡ (x.world.health_chans hc).cap → Inv hc (reported now change st)
      reported-Inv cap = record {
        room = λ ch. rw (record_health_frame now change taken).2 (v.room ch);
        health_room =
            rw (record_health_frame now change taken).3 (omega (arith, cap, v.health_room));
        health_subscribed = rw (record_health_frame now change taken).1 v.health_subscribed;
        owed = λ ev ch c e.
            let e' : in_state ev x.world.runner ≡ true =
              sym (in_state-record_health now change taken ev) ∙ e in
            reported-Owed ev ch e'
              (v.owed ev ch (rw (subscribers-record_health now change taken ev) at c) e');
      }

    pub reports-Inv : (now : ℕ) → Inv hc (act hc (reports now) x)
    unfolding act
    reports-Inv now = elim (Option-cases (receive hc x.world.health_chans)) [
      | inl e ↦ rw (e, act) v
      | inr (p, e) ↦
          rw (e, act) (reported-Inv now p.0 p.1 (cap-receive hc x.world.health_chans p e))
    ]
