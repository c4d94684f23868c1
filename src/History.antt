-- ===== src/History.antt =====
-- internal/app/machined/pkg/system/events/events.go: the states of a service and the bounded history
-- of its events.
pub mod Refine
mod Tests
use tailscale_os.Base.{
  ℕ, zero, suc, ◌+◌, ◌-◌, ◌%◌, ◌^◌, Bool, Option, none, some, List, [], ◌∷◌, String, length, get_or,
  set, replicate, leb, ◌==◌, str_eq, if◌then◌else◌,
}
use tailscale_os.Base.Int.{ℤ, pos, negsuc}
use tailscale_os.Health.{Status, zero_status, ServiceHealth, as_proto}

abbrev pub max_events_to_keep : ℕ
max_events_to_keep = 64

pub data ServiceState : Type 0 where
  initialized preparing waiting running stopping finished failed skipped starting : ServiceState

-- The `iota` of each constant.
unfoldable pub code : ServiceState → ℕ
code initialized = 0
code preparing = 1
code waiting = 2
code running = 3
code stopping = 4
code finished = 5
code failed = 6
code skipped = 7
code starting = 8

unfoldable pub state_string : ServiceState → String
state_string initialized = "Initialized"
state_string starting = "Starting"
state_string preparing = "Preparing"
state_string waiting = "Waiting"
state_string running = "Running"
state_string stopping = "Stopping"
state_string finished = "Finished"
state_string failed = "Failed"
state_string skipped = "Skipped"

pub record ServiceEvent : Type 0 where
  pub message : String
  pub state : ServiceState
  pub health : Status
  pub timestamp : ℕ

abbrev pub zero_event : ServiceEvent
zero_event = record { message = ""; state = initialized; health = zero_status; timestamp = 0 }

-- `machine.ServiceStateEvent`; an action is its number.
pub record ServiceStateEvent : Type 0 where
  pub service : String
  pub action : ℕ
  pub message : String
  pub health : ServiceHealth

unfoldable pub event_as_proto : String → ServiceEvent → ServiceStateEvent
unfolding code
event_as_proto service e = record {
  service = service;
  action = code e.state;
  message = e.message;
  health = as_proto e.health;
}

-- A nil slice is `none`; `discarded` is a `uint` of 64 bits.
pub record ServiceEvents : Type 0 where
  pub events : Option (List ServiceEvent)
  pub pos : ℕ
  pub discarded : ℕ

abbrev pub no_events : ServiceEvents
no_events = record { events = none; pos = 0; discarded = 0 }

-- The slice after the lazy allocation.
abbrev pub slots : ServiceEvents → List ServiceEvent
slots es = elim (es.events) [ none ↦ replicate max_events_to_keep zero_event | some buf ↦ buf ]

abbrev pub is_vacant : ServiceEvent → Bool
is_vacant e = str_eq e.message ""

unfoldable pub push : ServiceEvent → ServiceEvents → ServiceEvents
push e es =
    let buf : List ServiceEvent = slots es in
    record {
      events = some (set buf es.pos e);
      pos = (es.pos + 1) % length buf;
      discarded =
          (if is_vacant (get_or buf es.pos zero_event)
            then es.discarded
            else (es.discarded + 1) % 2 ^ 64);
    }

-- The loop of `Get`: `count` rounds from index `i` on.
get_from : List ServiceEvent → ℕ → ℕ → List ServiceEvent
get_from buf zero i = []
get_from buf (suc count) i =
    let e : ServiceEvent = get_or buf i zero_event in
    let rest : List ServiceEvent = get_from buf count ((i + 1) % length buf) in
    if is_vacant e then rest else e ∷ rest

-- `count` is an `int`; for a negative one the loop makes no round.
unfoldable pub get : ServiceEvents → ℤ → List ServiceEvent
unfolding get_from
get es (negsuc k) = []
get es (pos k) = elim (es.events) [
  | none ↦ []
  | some buf ↦
      let count : ℕ = if leb k max_events_to_keep then k else max_events_to_keep in
      get_from buf count ((es.pos + length buf - count) % length buf)
]
