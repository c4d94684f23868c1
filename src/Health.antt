-- ===== src/Health.antt =====
-- internal/app/machined/pkg/system/health: the health status of a service (status.go) and the check
-- loop that feeds it (check.go). A method that takes the lock is one step; `now` is `time.Now()`.
pub mod Notify
mod Tests
use tailscale_os.Base.{
  ℕ, ◌≡◌, Bool, true, false, not, ◌&&◌, Option, none, some, List, [], ◌∷◌, ◌++◌, String,
  if◌then◌else◌,
}
use tailscale_os.Slice.{remove_all}
use tailscale_os.Chan.{Chan, Store, send_all}

-- `*bool` is `none` for nil.
pub record Status : Type 0 where
  pub healthy : Option Bool
  pub last_change : ℕ
  pub last_message : String

abbrev pub zero_status : Status
zero_status = record { healthy = none; last_change = 0; last_message = "" }

-- `machine.ServiceHealth`
pub record ServiceHealth : Type 0 where
  pub unknown : Bool
  pub healthy : Bool

-- Whether the pointer is set and holds true.
unfoldable pub is_healthy : Status → Bool
is_healthy s = elim (s.healthy) [ none ↦ false | some b ↦ b ]

unfoldable pub is_unknown : Status → Bool
is_unknown s = elim (s.healthy) [ none ↦ true | some b ↦ false ]

unfoldable pub as_proto : Status → ServiceHealth
unfolding is_healthy is_unknown
as_proto s = record { unknown = is_unknown s; healthy = is_healthy s }

pub record StateChange : Type 0 where
  pub old : Status
  pub new : Status

pub record HealthState : Type 0 where
  pub status : Status
  pub subscribers : List ℕ

-- `state.status.Healthy == nil || *state.status.Healthy != healthy`
unfoldable pub changes : Option Bool → Bool → Bool
changes none b = true
changes (some true) b = not b
changes (some false) b = b

unfoldable pub next_status : ℕ → Bool → String → Status → Status
unfolding changes
next_status now healthy message s =
    if changes s.healthy healthy
    then record { healthy = some healthy; last_change = now; last_message = message }
    else record s { last_message = message }

-- The subscribers are a snapshot that is taken under the lock, and get the change after it.
unfoldable pub update_health :
    ℕ → Bool → String → HealthState → Store StateChange → HealthState × Store StateChange
unfolding next_status
update_health now healthy message h st =
    let new : Status = next_status now healthy message h.status in
    let change : StateChange = record { old = h.status; new = new } in
    let sent : Store StateChange = send_all change h.subscribers st in
    (record h { status = new }, (if changes h.status.healthy healthy then sent else st))

unfoldable pub subscribe_health : ℕ → HealthState → HealthState
subscribe_health ch h = record h { subscribers = h.subscribers ++ (ch ∷ []) }

unfoldable pub unsubscribe_health : ℕ → HealthState → HealthState
unsubscribe_health ch h = record h { subscribers = remove_all ch h.subscribers }

unfoldable pub init_health : ℕ → HealthState → HealthState
init_health now h = record h {
  status = record { healthy = none; last_change = now; last_message = "Unknown" };
}

-- One round of the check loop: what `check` returned (`none` is a nil error) and when.
pub record Round : Type 0 where
  pub at : ℕ
  pub err : Option String

-- `healthy = err == nil; message = "" or err.Error()`
unfoldable pub record_round :
    Round → HealthState → Store StateChange → HealthState × Store StateChange
unfolding update_health
record_round r h st = elim (r.err) [
  | none ↦ update_health r.at true "" h st
  | some message ↦ update_health r.at false message h st
]

unfoldable pub run_rounds :
    List Round → HealthState → Store StateChange → HealthState × Store StateChange
run_rounds [] h st = (h, st)
run_rounds (r ∷ rs) h st = let (h', st') = record_round r h st in run_rounds rs h' st'

-- `health.Run` up to the cancellation of its context: `cancelled_early` is a cancellation during the
-- initial delay, and the rounds are the checks that were made until the cancellation after them.
unfoldable pub run_health :
    ℕ → Bool → List Round → HealthState → Store StateChange → HealthState × Store StateChange
run_health now cancelled_early rounds h st =
    if cancelled_early then (init_health now h, st) else run_rounds rounds (init_health now h) st
