-- ===== src/Controllers/Watching.antt =====
-- controllers/v1alpha1/service.go: `Run` as the watcher of the event stream of the machine. The decoding of a
-- payload is a parameter.
use tailscale_os.Base.{
  ◌==◌, if◌then◌else◌, str_eq, ℕ, ◌+◌, ◌≤◌, ◌≡◌, refl, ap, ◌∙◌, true, Option, none, some, List, [],
  ◌∷◌, ◌++◌, String, keep, length, arith, str_eq,
}
use tailscale_os.History.{ServiceStateEvent}
use tailscale_os.Stream.{Event, EventInfo, Events}
use tailscale_os.Stream.Ring.{Holds}
use tailscale_os.Stream.Consumer.{
  Action, Watch, run, published, segment, wanted, sent_events, run_delivers,
}
use tailscale_os.Controllers.Services.{ServiceSpec, Resources, handle}

-- What the last event of a service says of its resource: 3 is `ServiceStateEvent_RUNNING`.
abbrev pub told_by : Option ServiceStateEvent → Option ServiceSpec
told_by none = none
told_by (some e) =
    if e.action == 3
    then some (record { running = true; healthy = e.health.healthy; unknown = e.health.unknown })
    else none

abbrev pub newer :
    String → Option ServiceStateEvent → Option ServiceStateEvent → Option ServiceStateEvent
newer id last none = last
newer id last (some e) = if str_eq id e.service then some e else last

module _ {Xid : Type 0} (decode : String → Option ServiceStateEvent) where
  -- The loop of the watch function over the events that it gets, where every write succeeds.
  unfoldable pub handle_infos : List (EventInfo Xid) → Resources → Resources
  unfolding handle
  handle_infos [] rs = rs
  handle_infos (i ∷ is) rs = handle_infos is (handle (decode i.event.payload) true rs)

  -- What events do to the resources, one after the other.
  abbrev pub handle_events : List (Event Xid) → Resources → Resources
  handle_events [] rs = rs
  handle_events (x ∷ xs) rs = handle_events xs (handle (decode x.payload) true rs)

  handle_infos-sent :
      (is : List (EventInfo Xid)) (rs : Resources)
      → handle_infos is rs ≡ handle_events (sent_events is) rs
  unfolding handle_infos
  handle_infos-sent [] rs = refl
  handle_infos-sent (i ∷ is) rs = handle_infos-sent is (handle (decode i.event.payload) true rs)

  -- No event is left out without a filter on actors.
  keep_all : (xs : List (Event Xid)) → keep (wanted "") xs ≡ xs
  keep_all [] = refl
  keep_all (x ∷ xs) = ap (◌∷◌ x) (keep_all xs)

  module _ (d : Event Xid) where
    -- `Run` of the controller: a watch from a position on, in any order with publishes, and the resources
    -- that it writes.
    unfoldable pub watch_services : Events Xid → ℕ → List (Action Xid) → Resources
    unfolding handle_infos
    watch_services e start acts =
        handle_infos
          (run d "" (record { events = e; at = start; sent = []; is_open = true }) acts).sent []

    -- Whatever is published between the rounds of the stream, the resources are those that the events of
    -- the log from the start position on give, up to some point of the log: also after the buffer
    -- has overrun the controller, which leaves them as they are.
    pub watch_services_lem :
        (acts : List (Action Xid)) (e : Events Xid) (log : List (Event Xid)) (start : ℕ)
        → Holds d e log
        → start ≤ e.write_pos
        → (n : ℕ) × (start + n ≤ length (log ++ published acts))
          × (watch_services e start acts
              ≡ handle_events (segment d (log ++ published acts) start n) [])
    unfolding watch_services
    watch_services_lem acts e log start h le =
        let (n, reached, behind, sent) = run_delivers d "" start acts e log h le in
        let w : Watch Xid =
          run d "" (record { events = e; at = start; sent = []; is_open = true }) acts in
        (
          n,
          omega (arith, reached, behind),
          handle_infos-sent w.sent []
              ∙ ap (λ xs. handle_events xs [])
                  (sent ∙ keep_all (segment d (log ++ published acts) start n)),
        )

  -- The last event of a service in a log, among events of other services and payloads that do not decode:
  -- `last` where the log has none.
  abbrev pub last_event :
      String → Option ServiceStateEvent → List (Event Xid) → Option ServiceStateEvent
  last_event id last [] = last
  last_event id last (x ∷ xs) = last_event id (newer id last (decode x.payload)) xs
