-- ===== src/Health/Notify.antt =====
-- When health changes are announced, and to whom.
use tailscale_os.Base.{
  ℕ, ◌<◌, ◌≡◌, ◌≢◌, refl, Bool, true, false, Option, none, some, List, [], ◌∷◌, String, count,
  length, if◌then◌else◌, arith, ◌==◌,
}
use tailscale_os.Slice.Removal.{count-remove_all}
use tailscale_os.Chan.{Store, send_all_wakes, send_all_others}
use tailscale_os.Health.{
  StateChange, HealthState, changes, update_health, unsubscribe_health, init_health, Round,
  record_round, run_rounds, run_health,
}

-- A verdict that is the stored one replaces the message, keeps the time of the last change and reaches
-- nobody.
pub update_health_quiet :
    (now : ℕ) (b : Bool) (m : String) (h : HealthState) (st : Store StateChange)
    → h.status.healthy ≡ some b
    → update_health now b m h st ≡ (record h { status = record h.status { last_message = m } }, st)
unfolding update_health changes
update_health_quiet now true m h st e = ground arith
update_health_quiet now false m h st e = ground arith

update_health-status :
    (now : ℕ) (b : Bool) (m : String) (h : HealthState) (st : Store StateChange)
    → let s = (update_health now b m h st).0.status in (s.healthy ≡ some b) × (s.last_message ≡ m)
unfolding update_health changes
update_health-status now true m h st = ground arith
update_health-status now false m h st = ground arith

changes-true : (o : Option Bool) (b : Bool) → o ≢ some b → changes o b ≡ true
unfolding changes
changes-true none b ne = refl
changes-true (some true) true ne = absurd (ne refl)
changes-true (some true) false ne = refl
changes-true (some false) true ne = refl
changes-true (some false) false ne = absurd (ne refl)

pub update_health_wakes :
    (now : ℕ) (b : Bool) (m : String) (h : HealthState) (st : Store StateChange) (ch : ℕ)
    → h.status.healthy ≢ some b
    → 0 < count ch h.subscribers
    → 0 < (st ch).cap
    → 0 < length ((update_health now b m h st).1 ch).buffer
unfolding update_health
update_health_wakes now b m h st ch ne c p =
    rw (changes-true h.status.healthy b ne) (send_all_wakes change h.subscribers st ch p c)
  where
    change : StateChange
    change = record {
      old = h.status;
      new = record { healthy = some b; last_change = now; last_message = m };
    }

-- A new verdict is stored with the time of the change and wakes every subscriber whose channel can hold
-- one value; a channel that is not subscribed stays as it was.
pub update_health_announces :
    (now : ℕ) (b : Bool) (m : String) (h : HealthState) (st : Store StateChange) (ch other : ℕ)
    → h.status.healthy ≢ some b
    → 0 < count ch h.subscribers
    → 0 < (st ch).cap
    → count other h.subscribers ≡ 0
    → let (h', st') = update_health now b m h st in
      (h'.status ≡ record { healthy = some b; last_change = now; last_message = m })
      × (0 < length (st' ch).buffer)
      × (st' other ≡ st other)
unfolding update_health
update_health_announces now b m h st ch other ne c p o = rw (changes-true h.status.healthy b ne) (
  refl,
  send_all_wakes change h.subscribers st ch p c,
  send_all_others change h.subscribers st other o,
)
  where
    change : StateChange
    change = record {
      old = h.status;
      new = record { healthy = some b; last_change = now; last_message = m };
    }

abbrev verdict : Round → Bool
verdict r = elim (r.err) [ none ↦ true | some m ↦ false ]

abbrev message : Round → String
message r = elim (r.err) [ none ↦ "" | some m ↦ m ]

abbrev last_round : Round → List Round → Round
last_round r [] = r
last_round r (s ∷ rs) = last_round s rs

record_round-update :
    (r : Round) (h : HealthState) (st : Store StateChange)
    → record_round r h st ≡ update_health r.at (verdict r) (message r) h st
unfolding record_round
record_round-update r h st = ground arith

run_rounds-last :
    (r : Round) (rs : List Round) (h : HealthState) (st : Store StateChange)
    → let s = (run_rounds (r ∷ rs) h st).0.status in
      (s.healthy ≡ some (verdict (last_round r rs))) × (s.last_message ≡ message (last_round r rs))
unfolding run_rounds
run_rounds-last r [] h st =
    rw (record_round-update r h st)
      (let p = update_health-status r.at (verdict r) (message r) h st in (p.0, p.1))
run_rounds-last r (s ∷ rs) h st =
    run_rounds-last s rs (record_round r h st).0 (record_round r h st).1

-- The check loop leaves the verdict and the message of the last check that it made, whatever was
-- stored before; if it was cancelled before the first check, the health is unknown, no one is told.
pub run_health-last :
    (now : ℕ) (r : Round) (rs : List Round) (h : HealthState) (st : Store StateChange)
    → let s = (run_health now false (r ∷ rs) h st).0.status in
      let t = run_health now true (r ∷ rs) h st in
      (s.healthy ≡ some (verdict (last_round r rs)))
      × (s.last_message ≡ message (last_round r rs))
      × (t.0.status.healthy ≡ none)
      × (t.1 ≡ st)
unfolding run_health init_health
run_health-last now r rs h st =
    let p = run_rounds-last r rs (init_health now h) st in (p.0, p.1, refl, refl)

-- After `Unsubscribe` the channel is in no snapshot, and any other channel is in it as often as before.
pub count-unsubscribe_health :
    (ch d : ℕ) (h : HealthState)
    → count d (unsubscribe_health ch h).subscribers ≡ (if ch == d then 0 else count d h.subscribers)
unfolding unsubscribe_health
count-unsubscribe_health ch d h = count-remove_all ch h.subscribers d
