-- ===== src/Runner/Wakeup/Owed.antt =====
-- What every waiter is owed, and the invariant of the interleaving.
use tailscale_os.Base.{ℕ, ◌<◌, ◌≡◌, ◌⊎◌, Bool, true, false, length, count}
use tailscale_os.Runner.{StateEvent, up, in_state, subscribers, is_running}
use tailscale_os.Runner.Wakeup.{pending, System}

abbrev pub is_up : StateEvent → Bool
is_up up = true
is_up _ = false

-- `hc` is the channel of the health changes.
module _ (hc : ℕ) where
  -- A waiter has its signal, or a notification that will reach it is under way, or a health change is
  -- waiting to be reported.
  abbrev pub Owed : System → StateEvent → ℕ → Type 0
  Owed x ev ch =
      (0 < length (x.world.chans ch).buffer)
      ⊎ (0 < pending ev x.under_way)
      ⊎ ((is_up ev ≡ true)
          × (is_running x.world.runner.state ≡ true)
          × (0 < length (x.world.health_chans hc).buffer))

  -- Every channel of a waiter can hold a signal, the health channel is subscribed, and no waiter is
  -- forgotten.
  pub record Inv (x : System) : Type 0 where
    pub room : (ch : ℕ) → 0 < (x.world.chans ch).cap
    pub health_room : 0 < (x.world.health_chans hc).cap
    pub health_subscribed : 0 < count hc x.world.runner.health_state.subscribers
    pub owed :
        (ev : StateEvent) (ch : ℕ)
        → 0 < count ch (subscribers ev x.world.runner)
        → in_state ev x.world.runner ≡ true
        → Owed x ev ch
