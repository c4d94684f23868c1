-- ===== src/Stream.antt =====
-- internal/app/machined/pkg/runtime/v1alpha1/v1alpha1_events.go: the event stream of the machine, a
-- ring buffer that one publisher writes and any number of consumers read at their own pace, and the
-- watch options of internal/app/machined/pkg/runtime/events.go.
pub mod Options
pub mod Ring
pub mod Consumer
pub mod Progress
pub mod Position
mod Tests
use tailscale_os.Base.{
  ℕ, zero, suc, ◌+◌, ◌-◌, ◌%◌, max, Bool, true, false, not, ◌&&◌, ◌||◌, Option, none, some, List,
  [], ◌∷◌, ◌++◌, String, length, get_or, set, replicate, ltb, leb, ◌==◌, str_eq, if◌then◌else◌,
}
use tailscale_os.Base.Int.{ℤ, pos, negsuc}
use Options.{WatchOptions}

-- `runtime.Event`. `xid.ID` is a type of a package outside the repository, and so a parameter.
pub record Event (Xid : Type 0) : Type 0 where
  pub type_url : String
  pub id : Xid
  pub payload : String
  pub actor_id : String

-- `runtime.EventInfo`
pub record EventInfo (Xid : Type 0) : Type 0 where
  pub event : Event Xid
  pub backlog : ℕ

-- `write_pos` counts every event that was ever published.
pub record Events (Xid : Type 0) : Type 0 where
  pub stream : List (Event Xid)
  pub write_pos : ℕ
  pub cap : ℕ
  pub gap : ℕ

-- What one round of the consumer's loop does: wait for a publish, stop because the buffer has overrun
-- the position, pass over an event of another actor, or send one.
pub data Turn (Xid : Type 0) : Type 0 where
  waits overrun passes : Turn Xid
  sends : EventInfo Xid → Turn Xid

module _ {Xid : Type 0} where
  -- `runtime.NewEvent`: a nil payload is `none`, the identifier is fresh from `xid.New`.
  unfoldable pub new_event : Option String → Xid → String → Event Xid
  new_event none id actor = record { type_url = ""; id = id; payload = ""; actor_id = actor }
  new_event (some p) id actor = record {
    type_url = "tsos/runtime/todo";
    id = id;
    payload = p;
    actor_id = actor;
  }

  -- `NewEvents`; `none` is its panic. The slots hold the zero value at first.
  unfoldable pub new_events : Event Xid → ℕ → ℕ → Option (Events Xid)
  new_events zero_event capacity gap =
      if leb capacity gap
      then none
      else some (record {
        stream = replicate capacity zero_event;
        write_pos = 0;
        cap = capacity;
        gap = gap;
      })

  -- The slot of a sequence number.
  abbrev pub slot : Event Xid → Events Xid → ℕ → Event Xid
  slot d e s = get_or e.stream (s % e.cap) d

  -- `Publish` after the event was made.
  unfoldable pub publish : Event Xid → Events Xid → Events Xid
  publish event e = record e {
    stream = set e.stream (e.write_pos % e.cap) event;
    write_pos = e.write_pos + 1;
  }

  unfoldable pub consume : Event Xid → String → Events Xid → ℕ → Turn Xid
  consume d actor e p =
      if p == e.write_pos
      then waits
      else if leb e.cap (e.write_pos - p)
      then overrun
      else if not (str_eq actor "") && not (str_eq (slot d e p).actor_id actor)
      then passes
      else sends (record { event = slot d e p; backlog = e.write_pos - (p + 1) })

  abbrev pub min_pos : Events Xid → ℕ
  min_pos e = e.write_pos - (e.cap - e.gap)

  -- `TailEvents`, where it is not zero. A position below zero never passes the `max` with `min_pos`,
  -- which the subtraction of natural numbers computes.
  unfoldable pub tail_pos : Events Xid → ℤ → ℕ
  tail_pos e (negsuc n) = min_pos e
  tail_pos e (pos n) = max (e.write_pos - n) (min_pos e)

-- The position a consumer starts from. `search` is `sort.Search`, `is_nil` is `xid.ID.IsNil`,
-- `is_after a b` is `a.Compare(b) > 0` and `is_late a t` is `a.Time().After(t)`; `cutoff` is
-- `time.Now().Add(-dur)`.
module _ {Xid : Type 0} (search : ℕ → (ℕ → Bool) → ℕ) (is_nil : Xid → Bool)
    (is_after : Xid → Xid → Bool) (is_late : Xid → ℕ → Bool) where
  unfoldable pub initial_pos : Event Xid → ℕ → WatchOptions Xid → Events Xid → ℕ
  unfolding tail_pos
  initial_pos d cutoff o e =
      let low : ℕ = min_pos e in
      let by_id : ℕ =
        low + search (e.write_pos - low) (λ i. is_after (slot d e (low + i)).id o.tail_id) in
      let by_time : ℕ =
        low + search (e.write_pos - low) (λ i. is_late (slot d e (low + i)).id cutoff) in
      if not (Options.is_zero o.tail_events)
      then tail_pos e o.tail_events
      else if not (is_nil o.tail_id)
      then by_id
      else if not (Options.is_zero o.tail_duration)
      then by_time
      else e.write_pos
