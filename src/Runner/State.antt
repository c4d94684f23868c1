-- ===== src/Runner/State.antt =====
-- The lists of subscribers, and what does not depend on them.
use tailscale_os.Base.{ℕ, ◌≡◌, refl, Bool, true, false, List, if◌then◌else◌, arith}
use tailscale_os.Health.{StateChange}
use tailscale_os.Runner.{
  StateEvent, up, down, done, ServiceRunner, World, in_state, subscribers, set_subscribers,
  record_health,
}

unfoldable pub same : StateEvent → StateEvent → Bool
same up up = true
same down down = true
same done done = true
same _ _ = false

pub eq_of_same : (a b : StateEvent) → same a b ≡ true → a ≡ b
unfolding same
eq_of_same up up e = refl
eq_of_same down down e = refl
eq_of_same done done e = refl
eq_of_same up down e = cc
eq_of_same up done e = cc
eq_of_same down up e = cc
eq_of_same down done e = cc
eq_of_same done up e = cc
eq_of_same done down e = cc

pub subscribers-set :
    (ev0 ev : StateEvent) (chs : List ℕ) (r : ServiceRunner)
    → subscribers ev (set_subscribers ev0 chs r) ≡ (if same ev0 ev then chs else subscribers ev r)
unfolding same subscribers set_subscribers
subscribers-set up up chs r = refl
subscribers-set up down chs r = refl
subscribers-set up done chs r = refl
subscribers-set down up chs r = refl
subscribers-set down down chs r = refl
subscribers-set down done chs r = refl
subscribers-set done up chs r = refl
subscribers-set done down chs r = refl
subscribers-set done done chs r = refl

-- A record of the runner with other subscribers is equal in every other field.
pub set_subscribers-state :
    (ev0 : StateEvent) (chs : List ℕ) (r : ServiceRunner)
    → ((set_subscribers ev0 chs r).state ≡ r.state)
      × ((set_subscribers ev0 chs r).health_state ≡ r.health_state)
unfolding set_subscribers
set_subscribers-state up chs r = (refl, refl)
set_subscribers-state down chs r = (refl, refl)
set_subscribers-state done chs r = (refl, refl)

pub in_state-set :
    (ev0 ev : StateEvent) (chs : List ℕ) (r : ServiceRunner)
    → in_state ev (set_subscribers ev0 chs r) ≡ in_state ev r
unfolding set_subscribers in_state
in_state-set up up chs r = refl
in_state-set up down chs r = refl
in_state-set up done chs r = refl
in_state-set down up chs r = refl
in_state-set down down chs r = refl
in_state-set down done chs r = refl
in_state-set done up chs r = refl
in_state-set done down chs r = refl
in_state-set done done chs r = refl

-- A health report changes the event history alone.
pub record_health_frame :
    (now : ℕ) (c : StateChange) (w : World)
    → let r = record_health now c w in
      (r.runner.state ≡ w.runner.state)
      × (r.runner.health_state ≡ w.runner.health_state)
      × (r.chans ≡ w.chans)
      × (r.health_chans ≡ w.health_chans)
unfolding record_health
record_health_frame now c w = ground arith

pub subscribers-record_health :
    (now : ℕ) (c : StateChange) (w : World) (ev : StateEvent)
    → subscribers ev (record_health now c w).runner ≡ subscribers ev w.runner
unfolding record_health subscribers
subscribers-record_health now c w up = ground arith
subscribers-record_health now c w down = ground arith
subscribers-record_health now c w done = ground arith

pub in_state-record_health :
    (now : ℕ) (c : StateChange) (w : World) (ev : StateEvent)
    → in_state ev (record_health now c w).runner ≡ in_state ev w.runner
unfolding record_health in_state
in_state-record_health now c w up = ground arith
in_state-record_health now c w down = ground arith
in_state-record_health now c w done = ground arith
