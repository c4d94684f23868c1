-- ===== src/Network/Dhcp/Timers.antt =====
-- controllers/network/dhcp4.go: `computeTimers`, and the two waits of a round of `runDHCP` by the clock.
-- Times and durations are in nanoseconds. The options of the answer are a parameter: for each of the
-- three durations what the packet gives where it is called with a default.
use tailscale_os.Base.{ℕ, ◌+◌, ◌-◌, ◌≤◌, ◌≡◌, arith}

-- The answer of a server: `IPAddressLeaseTime`, `IPAddressRenewalTime` and `IPAddressRebindingTime`.
pub record Ack : Type 0 where
  pub lease_time : ℕ → ℕ
  pub renewal_time : ℕ → ℕ
  pub rebinding_time : ℕ → ℕ

-- `leaseTimers`
pub record LeaseTimers : Type 0 where
  pub t1 : ℕ
  pub t2 : ℕ
  pub expiry : ℕ

unfoldable pub compute_timers : ℕ → Ack → LeaseTimers
compute_timers now ack = record {
  t1 = now + ack.renewal_time 0;
  t2 = now + ack.rebinding_time 0;
  expiry = now + ack.lease_time 0;
}

-- The clock in one round of the loop whose renewal and rebinding fail: after the answer was applied, at
-- the first select, after its timer, at the second select, and after its timer.
pub record Clock : Type 0 where
  pub applied : ℕ
  pub first_select : ℕ
  pub renews_at : ℕ
  pub second_select : ℕ
  pub destroys_at : ℕ

-- The clock does not go back, and `time.After(time.Until(t))` fires at the earliest after that duration,
-- which counts as none where it is negative.
pub record Keeps (ack : Ack) (c : Clock) : Type 0 where
  pub started : c.applied ≤ c.first_select
  pub first_timer :
      c.first_select + ((compute_timers c.applied ack).t1 - c.first_select) ≤ c.renews_at
  pub tried : c.renews_at ≤ c.second_select
  pub second_timer :
      c.second_select + ((compute_timers c.applied ack).expiry - c.second_select) ≤ c.destroys_at

-- The renewal comes no earlier than the renewal time after the lease was applied, and the removal of the
-- lease no earlier than the lease time after it, however long the calls between them take.
pub destroys_after :
    (ack : Ack) (c : Clock)
    → Keeps ack c
    → (c.applied + ack.renewal_time 0 ≤ c.renews_at)
      × (c.applied + ack.lease_time 0 ≤ c.destroys_at)
unfolding compute_timers
destroys_after ack c k = (omega (arith, k.first_timer), omega (arith, k.second_timer))

-- With a server that sends no renewal time, the timer of the first select is over when it is set.
pub renews_at_once :
    (ack : Ack) (applied first_select : ℕ)
    → ack.renewal_time 0 ≡ 0
    → applied ≤ first_select
    → (compute_timers applied ack).t1 - first_select ≡ 0
unfolding compute_timers
renews_at_once ack applied first_select z le = omega arith
