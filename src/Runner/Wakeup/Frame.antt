-- ===== src/Runner/Wakeup/Frame.antt =====
-- What the parts of a step leave as it was.
use tailscale_os.Base.{ℕ, ◌≡◌, refl, Bool, true, false, Option, some, List, String, arith}
use tailscale_os.Chan.{Store, receive, cap-send_all}
use tailscale_os.Health.{StateChange, HealthState, update_health, init_health, changes}
use tailscale_os.Runner.{
  StateEvent, up, down, done, ServiceRunner, in_state, subscribers, is_running,
}

pub cap-receive :
    (ch : ℕ) (st : Store StateChange) (p : StateChange × Store StateChange)
    → receive ch st ≡ some p
    → (p.1 ch).cap ≡ (st ch).cap
unfolding receive
cap-receive ch st p e = ground arith

abbrev pub listed : StateEvent → ServiceRunner → List ℕ
listed up r = r.up_subscribers
listed down r = r.down_subscribers
listed done r = r.done_subscribers

pub subscribers_lem : (ev : StateEvent) (r : ServiceRunner) → subscribers ev r ≡ listed ev r
unfolding subscribers
subscribers_lem up r = refl
subscribers_lem down r = refl
subscribers_lem done r = refl

pub verdict-dec : (o : Option Bool) (b : Bool) → Dec (o ≡ some b)
verdict-dec o b = Option-Bool-discrete o (some b)
  where
    Option-Bool-discrete : Discrete (Option Bool)
    Option-Bool-discrete = hlevel

-- What an update of the health leaves as it was.
pub update_health_frame :
    (now : ℕ) (b : Bool) (m : String) (h : HealthState) (st : Store StateChange) (ch : ℕ)
    → ((update_health now b m h st).0.subscribers ≡ h.subscribers)
      × (((update_health now b m h st).1 ch).cap ≡ (st ch).cap)
unfolding update_health changes
update_health_frame now true m h st ch =
    ground (arith, cap-send_all (change true) h.subscribers st ch)
  where
    change : Bool → StateChange
    change b = record {
      old = h.status;
      new = record { healthy = some b; last_change = now; last_message = m };
    }
update_health_frame now false m h st ch =
    ground (arith, cap-send_all (change false) h.subscribers st ch)
  where
    change : Bool → StateChange
    change b = record {
      old = h.status;
      new = record { healthy = some b; last_change = now; last_message = m };
    }

-- Away from `running` the health does not decide whether a service is up.
pub in_state-health :
    (r : ServiceRunner) (h : HealthState)
    → is_running r.state ≡ false
    → in_state up (record r { health_state = h }) ≡ in_state up r
unfolding in_state is_running
in_state-health r h e = ground arith

pub subscribers-health :
    (ev : StateEvent) (r : ServiceRunner) (h : HealthState)
    → subscribers ev (record r { health_state = h }) ≡ subscribers ev r
unfolding subscribers
subscribers-health up r h = refl
subscribers-health down r h = refl
subscribers-health done r h = refl

pub in_state_message :
    (m : String) (r : ServiceRunner) (ev : StateEvent)
    → in_state ev (record r {
      health_state = record (r.health_state) {
        status = record (r.health_state.status) { last_message = m };
      };
    })
      ≡ true
    → in_state ev r ≡ true
unfolding in_state
in_state_message m r up e = e
in_state_message m r down e = e
in_state_message m r done e = e

pub in_state_init :
    (now : ℕ) (r : ServiceRunner) (ev : StateEvent)
    → in_state ev (record r { health_state = init_health now r.health_state }) ≡ true
    → in_state ev r ≡ true
unfolding in_state init_health
in_state_init now r up e = ground arith
in_state_init now r down e = e
in_state_init now r done e = e
