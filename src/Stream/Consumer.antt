-- ===== src/Stream/Consumer.antt =====
-- The goroutine of one `Watch` call beside any publisher: a schedule of publishes and of rounds of the
-- consumer's loop. A send waits for the watcher, so what was sent is a list in order.
use mathlib.Core.List.{append-nil, append_assoc}
use tailscale_os.Base.{
  ℕ, zero, suc, ◌+◌, ◌-◌, ◌≤◌, ◌<◌, ◌≡◌, ◌≢◌, refl, sym, ap, ◌∙◌, Bool, true, false, ◌||◌, List, [],
  ◌∷◌, ◌++◌, String, length, get_or, keep, arith, str_eq, if◌then◌else◌,
}
use tailscale_os.Stream.{
  Event, EventInfo, Events, Turn, waits, overrun, passes, sends, slot, publish, consume,
}
use tailscale_os.Stream.Ring.{Holds, publish-Holds, get_or-append_le}

pub data Action (Xid : Type 0) : Type 0 where
  publishes : Event Xid → Action Xid
  turns : Action Xid

-- `sent` is what the watcher got, oldest first; `open` is false once the loop has returned.
pub record Watch (Xid : Type 0) : Type 0 where
  pub events : Events Xid
  pub at : ℕ
  pub sent : List (EventInfo Xid)
  pub is_open : Bool

-- An event that passes the actor filter.
abbrev pub wanted : {Xid : Type 0} → String → Event Xid → Bool
wanted actor x = str_eq actor "" || str_eq x.actor_id actor

module _ {Xid : Type 0} (d : Event Xid) (actor : String) where
  unfoldable pub apply_turn : Watch Xid → Turn Xid → Watch Xid
  apply_turn w waits = w
  apply_turn w overrun = record w { is_open = false }
  apply_turn w passes = record w { at = w.at + 1 }
  apply_turn w (sends info) = record w { at = w.at + 1; sent = w.sent ++ (info ∷ []) }

  unfoldable pub step : Watch Xid → Action Xid → Watch Xid
  step w (publishes x) = record w { events = publish x w.events }
  step w turns = if w.is_open then apply_turn w (consume d actor w.events w.at) else w

  unfoldable pub run : Watch Xid → List (Action Xid) → Watch Xid
  run w [] = w
  run w (a ∷ acts) = run (step w a) acts

-- The events that a schedule publishes.
abbrev pub published : {Xid : Type 0} → List (Action Xid) → List (Event Xid)
published [] = []
published (publishes x ∷ acts) = x ∷ published acts
published (turns ∷ acts) = published acts

module _ {Xid : Type 0} (d : Event Xid) where
  -- The `n` entries of the log from index `from` on.
  abbrev pub segment : List (Event Xid) → ℕ → ℕ → List (Event Xid)
  segment log start zero = []
  segment log start (suc n) = segment log start n ++ (get_or log (start + n) d ∷ [])

  segment-append :
      (log more : List (Event Xid)) (start n : ℕ)
      → start + n ≤ length log
      → segment (log ++ more) start n ≡ segment log start n
  segment-append log more start zero h = refl
  segment-append log more start (suc n) h = rw (
    segment-append log more start n (omega arith),
    get_or-append_le log more (start + n) d (omega arith),
  )

abbrev pub sent_events : {Xid : Type 0} → List (EventInfo Xid) → List (Event Xid)
sent_events [] = []
sent_events (i ∷ is) = i.event ∷ sent_events is

sent_events-append :
    {Xid : Type 0} (xs ys : List (EventInfo Xid))
    → sent_events (xs ++ ys) ≡ sent_events xs ++ sent_events ys
sent_events-append [] ys = refl
sent_events-append (x ∷ xs) ys = rw (sent_events-append xs ys)

module _ {Xid : Type 0} (d : Event Xid) (actor : String) where
  consume-passes :
      (e : Events Xid) (p : ℕ)
      → consume d actor e p ≡ passes
      → (p ≢ e.write_pos) × (e.write_pos - p < e.cap) × (wanted actor (slot d e p) ≡ false)
  unfolding consume
  consume-passes e p h = ground arith

  consume_sends :
      (e : Events Xid) (p : ℕ) (info : EventInfo Xid)
      → consume d actor e p ≡ sends info
      → (p ≢ e.write_pos)
        × (e.write_pos - p < e.cap)
        × (wanted actor (slot d e p) ≡ true)
        × (info.event ≡ slot d e p)
  unfolding consume
  consume_sends e p info h = ground arith

  keep_skip :
      (xs : List (Event Xid)) (x : Event Xid)
      → wanted actor x ≡ false
      → keep (wanted actor) (xs ++ (x ∷ [])) ≡ keep (wanted actor) xs
  keep_skip [] x h = rw h
  keep_skip (y ∷ xs) x h = ground (arith, keep_skip xs x h)

  keep_take :
      (xs : List (Event Xid)) (x : Event Xid)
      → wanted actor x ≡ true
      → keep (wanted actor) (xs ++ (x ∷ [])) ≡ keep (wanted actor) xs ++ (x ∷ [])
  keep_take [] x h = rw h
  keep_take (y ∷ xs) x h = ground (arith, keep_take xs x h)

module _ {Xid : Type 0} (d : Event Xid) (actor : String) (start : ℕ) where
  -- A consumer that started at `start` has read `n` entries of the log, in order, and has sent those
  -- that pass its filter.
  pub record Follows (w : Watch Xid) (log : List (Event Xid)) (n : ℕ) : Type 0 where
    pub holds : Holds d w.events log
    pub reached : w.at ≡ start + n
    pub behind : w.at ≤ w.events.write_pos
    pub content : sent_events w.sent ≡ keep (wanted actor) (segment d log start n)

  module _ (w : Watch Xid) (log : List (Event Xid)) (n : ℕ) (f : Follows w log n) where
    publish-Follows : (x : Event Xid) → Follows (step d actor w (publishes x)) (log ++ (x ∷ [])) n
    unfolding step publish
    publish-Follows x = record {
      holds = publish-Holds d w.events log x f.holds;
      reached = f.reached;
      behind = omega (arith, f.behind);
      content =
          f.content
          ∙ ap (keep (wanted actor)) (
              sym (
                segment-append d log (x ∷ []) start n
                  (omega (arith, f.holds.written, f.reached, f.behind))));
    }

    -- The entry that a round reads, where the buffer has not overrun the position.
    reads :
        w.at < w.events.write_pos
        → w.events.write_pos - w.at < w.events.cap
        → slot d w.events w.at ≡ get_or log (start + n) d
    reads lt near = f.holds.entry w.at lt (omega arith) ∙ ap (λ i. get_or log i d) f.reached

    apply_turn-Follows :
        (t : Turn Xid)
        → consume d actor w.events w.at ≡ t
        → (m : ℕ) × Follows (apply_turn d actor w t) log m
    unfolding apply_turn
    apply_turn-Follows waits e = (n, f)
    apply_turn-Follows overrun e =
        (n, record { holds = f.holds; reached = f.reached; behind = f.behind; content = f.content })
    apply_turn-Follows passes e =
        let c = consume-passes d actor w.events w.at e in
        (
          suc n,
          record {
            holds = f.holds;
            reached = omega (arith, f.reached);
            behind = omega (arith, f.behind, c.0);
            content =
                f.content
                ∙ sym (
                    keep_skip d actor (segment d log start n) (get_or log (start + n) d)
                      (rw (reads (omega (arith, f.behind, c.0)) c.1) at c.2));
          },
        )
    apply_turn-Follows (sends info) e =
        let c = consume_sends d actor w.events w.at info e in
        (
          suc n,
          record {
            holds = f.holds;
            reached = omega (arith, f.reached);
            behind = omega (arith, f.behind, c.0);
            content =
                sent_events-append w.sent (info ∷ [])
                ∙ ap (λ xs. xs ++ (info.event ∷ [])) f.content
                ∙ ap (λ x. keep (wanted actor) (segment d log start n) ++ (x ∷ []))
                    (c.3 ∙ reads (omega (arith, f.behind, c.0)) c.1)
                ∙ sym (
                    keep_take d actor (segment d log start n) (get_or log (start + n) d)
                      (rw (reads (omega (arith, f.behind, c.0)) c.1) at c.2));
          },
        )

    guarded :
        (b : Bool)
        → (m : ℕ) × Follows
            (if b then apply_turn d actor w (consume d actor w.events w.at) else w)
            log
            m
    guarded true = apply_turn-Follows (consume d actor w.events w.at) refl
    guarded false = (n, f)

    turn-Follows : (m : ℕ) × Follows (step d actor w turns) log m
    unfolding step
    turn-Follows = guarded w.is_open

  run-Follows :
      (acts : List (Action Xid)) (w : Watch Xid) (log : List (Event Xid)) (n : ℕ)
      → Follows w log n
      → (m : ℕ) × Follows (run d actor w acts) (log ++ published acts) m
  unfolding run
  run-Follows [] w log n f = (n, rw append-nil f)
  run-Follows (publishes x ∷ acts) w log n f =
      let (m, g) =
        run-Follows acts (step d actor w (publishes x)) (log ++ (x ∷ [])) n
          (publish-Follows w log n f x) in
      (m, rw append_assoc at g)
  run-Follows (turns ∷ acts) w log n f =
      let (k, g) = turn-Follows w log n f in run-Follows acts (step d actor w turns) log k g

  -- Whatever the publisher does between the rounds, the watcher gets the entries of the log from the
  -- start position on, in order, each once and none left out but those of other actors: also when the
  -- buffer overruns the consumer, which then gets nothing more, rather than an entry out of place.
  pub run_delivers :
      (acts : List (Action Xid)) (e : Events Xid) (log : List (Event Xid))
      → Holds d e log
      → start ≤ e.write_pos
      → let w = run d actor (record { events = e; at = start; sent = []; is_open = true }) acts in
        (n : ℕ) × (w.at ≡ start + n)
        × (w.at ≤ length (log ++ published acts))
        × (sent_events w.sent ≡ keep (wanted actor) (segment d (log ++ published acts) start n))
  run_delivers acts e log h le =
      let w : Watch Xid = record { events = e; at = start; sent = []; is_open = true } in
      let (n, f) =
        run-Follows acts w log 0
          (record { holds = h; reached = omega arith; behind = le; content = refl }) in
      (n, f.reached, omega (arith, f.behind, f.holds.written), f.content)
