-- ===== src/Runner/Conditions.antt =====
-- internal/app/machined/pkg/system/service_events.go: the condition that a service is up, down or
-- finished.
pub mod Waiters
mod Tests
use tailscale_os.Base.{
  ℕ, Bool, true, false, not, ◌&&◌, ◌||◌, Option, none, some, List, [], ◌∷◌, String, join, length,
  ltb, lookup, if◌then◌else◌,
}
use tailscale_os.Chan.{Chan}
use tailscale_os.Runner.{
  Signal, StateEvent, up, down, done, ServiceRunner, World, subscribe, unsubscribe,
}

-- `string(event)`
unfoldable pub event_string : StateEvent → String
event_string up = "up"
event_string down = "down"
event_string done = "finished"

-- The loop of `waitEvent` over its events, and its deferred calls, the last one first.
unfoldable pub subscribe_all : List StateEvent → ℕ → World → World
subscribe_all [] ch w = w
subscribe_all (ev ∷ evs) ch w = subscribe_all evs ch (subscribe ev ch w)

unfoldable pub unsubscribe_all : List StateEvent → ℕ → World → World
unsubscribe_all [] ch w = w
unsubscribe_all (ev ∷ evs) ch w = unsubscribe ev ch (unsubscribe_all evs ch w)

-- What a `Wait` comes to: nil, the error of the context, or no return yet.
pub data Waited : Type 0 where
  satisfied cancelled still_waiting : Waited

-- The `select` of `waitEvent`; `prefers_ctx` is the choice that Go makes where both cases are ready.
unfoldable pub select_result : Bool → Bool → Chan Signal → Waited
select_result ctx_done prefers_ctx c =
    let ready = ltb 0 (length c.buffer) in
    if ctx_done && (prefers_ctx || not ready)
    then cancelled
    else if ready
    then satisfied
    else still_waiting

abbrev pub settle : List StateEvent → ℕ → World → Waited → Waited × World
settle evs ch w still_waiting = (still_waiting, w)
settle evs ch w r = (r, unsubscribe_all evs ch w)

-- `waitEvent` on a channel of its own; `others` is what the other goroutines do while it waits.
unfoldable pub wait_event :
    List StateEvent → ℕ → (World → World) → Bool → Bool → World → Waited × World
unfolding subscribe_all unsubscribe_all select_result
wait_event evs ch others ctx_done prefers_ctx w =
    let w' : World = others (subscribe_all evs ch w) in
    settle evs ch w' (select_result ctx_done prefers_ctx (w'.chans ch))

-- `waitRegister` up to `waitEvent`, and the test of `Wait`: whether the service is loaded at each look,
-- and whether the context ends before the next one.
unfoldable pub wait_register : List (Bool × Bool) → Waited
wait_register [] = still_waiting
wait_register ((true, ctx_done) ∷ looks) = satisfied
wait_register ((false, true) ∷ looks) = cancelled
wait_register ((false, false) ∷ looks) = wait_register looks

-- `Wait`: the looks for the service, and once it is loaded the wait for its events.
unfoldable pub wait :
    List (Bool × Bool)
    → List StateEvent
    → ℕ
    → (World → World)
    → Bool
    → Bool
    → World
    → Waited × World
unfolding wait_register wait_event
wait looks evs ch others ctx_done prefers_ctx w = elim (wait_register looks) [
  | satisfied ↦ wait_event evs ch others ctx_done prefers_ctx w
  | cancelled ↦ (cancelled, w)
  | still_waiting ↦ (still_waiting, w)
]

abbrev join_slashes : List StateEvent → String
join_slashes [] = ""
join_slashes (ev ∷ []) = event_string ev
join_slashes (ev ∷ more ∷ evs) = join (join (event_string ev) "/") (join_slashes (more ∷ evs))

-- `String`; `quote` is the verb %q.
unfoldable pub describe : (String → String) → Bool → String → List StateEvent → String
unfolding event_string
describe quote true service evs = join (join "service " (quote service)) " to be registered"
describe quote false service (ev ∷ []) =
    join (join (join "service " (quote service)) " to be ") (quote (event_string ev))
describe quote false service evs =
    join (join (join "service " (quote service)) " to be ") (join_slashes evs)
