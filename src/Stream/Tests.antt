-- ===== src/Stream/Tests.antt =====
-- A stream of three slots with numbers for identifiers.
use tailscale_os.Base.{
  ℕ, zero, suc, ◌+◌, ◌<◌, ◌≤◌, ◌≡◌, refl, true, false, Bool, [], ◌∷◌, ◌++◌, List, String, arith,
  keep, length, replicate, leb, ltb, if◌then◌else◌,
}
use tailscale_os.Base.Int.{ℤ, pos, negsuc}
use tailscale_os.Stream.{Event, Events, new_events, publish, slot, consume, overrun, initial_pos}
use tailscale_os.Stream.Options.{WatchOptions}
use tailscale_os.Stream.Ring.{Holds, new_events-Holds, publish-Holds}
use tailscale_os.Stream.Consumer.{
  Action, publishes, turns, wanted, run, segment, sent_events, published, run_delivers,
}
use tailscale_os.Stream.Progress.{run_catches_up}
use tailscale_os.Stream.Position.{IsSearch, initial_pos_after, initial_pos_no_gap}

abbrev event : ℕ → String → Event ℕ
event n actor = record { type_url = "tsos/runtime/todo"; id = n; payload = ""; actor_id = actor }

abbrev vacant : Event ℕ
vacant = record { type_url = ""; id = 0; payload = ""; actor_id = "" }

abbrev empty_stream : Events ℕ
empty_stream = record { stream = replicate 3 vacant; write_pos = 0; cap = 3; gap = 1 }

empty_stream-Holds : Holds vacant empty_stream []
unfolding new_events
empty_stream-Holds = (new_events-Holds vacant 3 1 empty_stream refl).0

abbrev busy : List (Action ℕ)
busy =
    publishes (event 1 "a")
    ∷ turns
    ∷ publishes (event 2 "b")
    ∷ publishes (event 3 "a")
    ∷ turns
    ∷ turns
    ∷ []

run_delivers_example :
    let w =
      run vacant "a" (record { events = empty_stream; at = 0; sent = []; is_open = true }) busy in
    (n : ℕ) × (w.at ≡ 0 + n)
    × (w.at ≤ length ([] ++ published busy))
    × (sent_events w.sent ≡ keep (wanted "a") (segment vacant ([] ++ published busy) 0 n))
run_delivers_example =
    run_delivers vacant "a" 0 busy empty_stream [] empty_stream-Holds (omega arith)

abbrev one_event : Events ℕ
one_event = record { stream = event 1 "a" ∷ vacant ∷ vacant ∷ []; write_pos = 1; cap = 3; gap = 1 }

one_event-Holds : Holds vacant one_event (event 1 "a" ∷ [])
unfolding publish
one_event-Holds = publish-Holds vacant empty_stream [] (event 1 "a") empty_stream-Holds

run_catches_up_example :
    let w =
      run vacant "a"
        (record { events = one_event; at = 0; sent = []; is_open = true })
        (replicate 1 turns) in
    (w.at ≡ 1) × (w.is_open ≡ true) × (sent_events w.sent ≡ event 1 "a" ∷ [])
run_catches_up_example =
    run_catches_up vacant "a" one_event (event 1 "a" ∷ []) 0 1 one_event-Holds refl (omega arith)

-- The least index that passes the test, as `sort.Search` documents it.
abbrev first_true : ℕ → (ℕ → Bool) → ℕ
first_true zero f = 0
first_true (suc n) f = let rest = first_true n (λ i. f (suc i)) in if f 0 then 0 else suc rest

within : (n : ℕ) (f : ℕ → Bool) → first_true n f ≤ n
within zero f = omega arith
within (suc n) f = ground (arith, within n (λ i. f (suc i)))

before : (n : ℕ) (f : ℕ → Bool) (i : ℕ) → i < first_true n f → f i ≡ false
before zero f i lt = absurd (omega arith)
before (suc n) f zero lt = ground arith
before (suc n) f (suc i) lt = ground (arith, before n (λ j. f (suc j)) i)

reaches : (n : ℕ) (f : ℕ → Bool) → first_true n f < n → f (first_true n f) ≡ true
reaches zero f lt = absurd (omega arith)
reaches (suc n) f lt = ground (arith, reaches n (λ j. f (suc j)))

first_true-IsSearch : IsSearch first_true
first_true-IsSearch = record {
  within = within;
  before = λ n f mono i lt. before n f i lt;
  after = λ n f mono i le lt. mono (first_true n f) i le lt (reaches n f (omega arith));
}

abbrev is_nil : ℕ → Bool
is_nil zero = true
is_nil (suc n) = false

abbrev is_after : ℕ → ℕ → Bool
is_after a b = ltb b a

abbrev four_events : ℕ → Events ℕ
four_events gap = record {
  stream = event 4 "a" ∷ event 2 "a" ∷ event 3 "a" ∷ [];
  write_pos = 4;
  cap = 3;
  gap = gap;
}

abbrev watch : ℤ → ℕ → WatchOptions ℕ
watch n id = record { tail_events = n; tail_id = id; tail_duration = pos 0; actor_id = "" }

initial_pos_no_gap_example :
    consume vacant "" (four_events 0) (
      initial_pos first_true is_nil is_after is_after vacant 0 (watch (negsuc 0) 0) (four_events 0))
    ≡ overrun
initial_pos_no_gap_example =
    initial_pos_no_gap first_true is_nil is_after is_after first_true-IsSearch vacant "" 0 0
      (watch (negsuc 0) 0) (four_events 0) refl (omega arith) (omega arith) refl

grows :
    (s t : ℕ)
    → 2 ≤ s
    → s ≤ t
    → t < 4
    → is_after (slot vacant (four_events 1) s).id 3 ≡ true
    → is_after (slot vacant (four_events 1) t).id 3 ≡ true
grows zero t a b c e = absurd (omega arith)
grows (suc zero) t a b c e = absurd (omega arith)
grows (suc (suc zero)) t a b c e = cc
grows (suc (suc (suc zero))) t a b c e = let last : t ≡ 3 = omega arith in rw last refl
grows (suc (suc (suc (suc s)))) t a b c e = absurd (omega arith)

initial_pos_after_example :
    is_after (slot vacant (four_events 1) 3).id 3
    ≡ leb
        (initial_pos first_true is_nil is_after is_after vacant 0 (watch (pos 0) 3) (four_events 1))
        3
initial_pos_after_example =
    initial_pos_after first_true is_nil is_after is_after first_true-IsSearch vacant 0
      (watch (pos 0) 3) (four_events 1) (omega arith) refl refl grows 3 (omega arith) (omega arith)
