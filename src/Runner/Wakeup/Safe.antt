-- ===== src/Runner/Wakeup/Safe.antt =====
-- Any steps in any order.
use tailscale_os.Base.{ℕ, ◌<◌, ◌≡◌, inl, inr, true, List, [], ◌∷◌, length, count, arith}
use tailscale_os.Runner.{StateEvent, up, down, done, World, in_state, subscribers}
use tailscale_os.Runner.Wakeup.{
  pending, System, Act, records, notifies, judges, reports, subscribes, unsubscribes,
  restarts_health, act, run_acts,
}
use tailscale_os.Runner.Wakeup.Owed.{Inv}
use tailscale_os.Runner.Wakeup.Frame.{subscribers_lem}
use tailscale_os.Runner.Wakeup.Notices.{records-Inv, notifies-Inv}
use tailscale_os.Runner.Wakeup.Verdicts.{judges-Inv, restarts_health-Inv}
use tailscale_os.Runner.Wakeup.Waiters.{subscribes-Inv, unsubscribes-Inv}
use tailscale_os.Runner.Wakeup.Reports.{reports-Inv}

-- No notification is under way.
abbrev pub at_rest : World → System
at_rest w = record { world = w; under_way = record { ups = 0; downs = 0; dones = 0 } }

module _ (hc : ℕ) where
  act-Inv : (a : Act) (x : System) → Inv hc x → Inv hc (act hc a x)
  act-Inv (records now s m) x v = records-Inv hc x v now s m
  act-Inv (notifies ev) x v = notifies-Inv hc x v ev
  act-Inv (judges now b m) x v = judges-Inv hc x v now b m
  act-Inv (reports now) x v = reports-Inv hc x v now
  act-Inv (subscribes ev ch) x v = subscribes-Inv hc x v ev ch
  act-Inv (unsubscribes ev ch) x v = unsubscribes-Inv hc x v ev ch
  act-Inv (restarts_health now) x v = restarts_health-Inv hc x v now

  run_acts-Inv : (acts : List Act) (x : System) → Inv hc x → Inv hc (run_acts hc acts x)
  unfolding run_acts
  run_acts-Inv [] x v = v
  run_acts-Inv (a ∷ acts) x v = run_acts-Inv acts (act hc a x) (act-Inv a x v)

  -- No wake-up is lost. From a runner with no waiters whose health channel is subscribed, let the
  -- goroutines take any steps in any order. Once no notification is under way and no health change is
  -- waiting to be reported, every waiter that is still subscribed to an event that holds has its signal.
  pub no_lost_wakeup :
      (acts : List Act) (w : World) (ev : StateEvent) (ch : ℕ)
      → w.runner.up_subscribers ≡ []
      → w.runner.down_subscribers ≡ []
      → w.runner.done_subscribers ≡ []
      → ((c : ℕ) → 0 < (w.chans c).cap)
      → 0 < (w.health_chans hc).cap
      → 0 < count hc w.runner.health_state.subscribers
      → pending ev (run_acts hc acts (at_rest w)).under_way ≡ 0
      → length ((run_acts hc acts (at_rest w)).world.health_chans hc).buffer ≡ 0
      → 0 < count ch (subscribers ev (run_acts hc acts (at_rest w)).world.runner)
      → in_state ev (run_acts hc acts (at_rest w)).world.runner ≡ true
      → 0 < length ((run_acts hc acts (at_rest w)).world.chans ch).buffer
  no_lost_wakeup acts w ev ch u d f room hroom hsub idle quiet on holds =
      elim ((run_acts-Inv acts x start).owed ev ch on holds) [
        | inl b ↦ b
        | inr (inl p) ↦ absurd (omega arith)
        | inr (inr q) ↦ absurd (omega arith)
      ]
    where
      x : System
      x = at_rest w

      nobody : (ev : StateEvent) (ch : ℕ) → 0 < count ch (subscribers ev w.runner) → ⊥
      nobody up ch c = ground (arith, c, subscribers_lem up w.runner)
      nobody down ch c = ground (arith, c, subscribers_lem down w.runner)
      nobody done ch c = ground (arith, c, subscribers_lem done w.runner)

      start : Inv hc x
      start = record {
        room = room;
        health_room = hroom;
        health_subscribed = hsub;
        owed = λ ev ch c e. absurd (nobody ev ch c);
      }
