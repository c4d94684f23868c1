-- ===== src/Stream/Position.antt =====
-- The position a watch starts from.
use native.Mathlib.Decide.{dec_lt}
use tailscale_os.Base.{
  ℕ, ◌+◌, ◌-◌, ◌≤◌, ◌<◌, ◌≡◌, ◌≢◌, sym, ◌∙◌, min, Bool, true, false, String, arith, leb,
}
use tailscale_os.Base.Int.{ℤ, pos, negsuc}
use tailscale_os.Stream.Options.{WatchOptions, is_zero}
use tailscale_os.Stream.{Event, Events, overrun, slot, consume, initial_pos}

-- What the documentation of `sort.Search` promises: the result is within the range, and for a test
-- that once true stays true it is the first index at which the test holds.
pub record IsSearch (search : ℕ → (ℕ → Bool) → ℕ) : Type 0 where
  pub within : (n : ℕ) (f : ℕ → Bool) → search n f ≤ n
  pub before :
      (n : ℕ) (f : ℕ → Bool)
      → ((i j : ℕ) → i ≤ j → j < n → f i ≡ true → f j ≡ true)
      → (i : ℕ) → i < search n f
      → f i ≡ false
  pub after :
      (n : ℕ) (f : ℕ → Bool)
      → ((i j : ℕ) → i ≤ j → j < n → f i ≡ true → f j ≡ true)
      → (i : ℕ) → search n f ≤ i
      → i < n
      → f i ≡ true

leb-false : (a b : ℕ) → b < a → leb a b ≡ false
leb-false a b h = ground arith

leb-true : (a b : ℕ) → a ≤ b → leb a b ≡ true
leb-true a b h = ground arith

module _ {Xid : Type 0} (d : Event Xid) (actor : String) where
  near-ne-overrun :
      (e : Events Xid) (p : ℕ) → e.write_pos - p < e.cap → consume d actor e p ≢ overrun
  unfolding consume
  near-ne-overrun e p h = ground arith

  far-overrun :
      (e : Events Xid) (p : ℕ)
      → p ≢ e.write_pos
      → e.cap ≤ e.write_pos - p
      → consume d actor e p ≡ overrun
  unfolding consume
  far-overrun e p ne h = ground arith

-- How many of `k` available events a tail option asks for.
abbrev pub asked : ℤ → ℕ → ℕ
asked (pos n) k = min n k
asked (negsuc n) k = k

module _ {Xid : Type 0} (search : ℕ → (ℕ → Bool) → ℕ) (is_nil : Xid → Bool)
    (is_after : Xid → Xid → Bool) (is_late : Xid → ℕ → Bool) (good : IsSearch search)
    (d : Event Xid) where
  abbrev start_of : ℕ → WatchOptions Xid → Events Xid → ℕ
  start_of cutoff o e = initial_pos search is_nil is_after is_late d cutoff o e

  start_of-bounds :
      (cutoff : ℕ) (o : WatchOptions Xid) (e : Events Xid)
      → e.gap < e.cap
      → (e.write_pos - (e.cap - e.gap) ≤ start_of cutoff o e) × (start_of cutoff o e ≤ e.write_pos)
  unfolding initial_pos is_zero
  start_of-bounds cutoff o e h = ground (
    arith,
    good.within (e.write_pos - (e.write_pos - (e.cap - e.gap)))
        (λ i. is_after (slot d e (e.write_pos - (e.cap - e.gap) + i)).id o.tail_id),
    good.within (e.write_pos - (e.write_pos - (e.cap - e.gap)))
        (λ i. is_late (slot d e (e.write_pos - (e.cap - e.gap) + i)).id cutoff),
  )

  -- With a gap of at least one slot every watch starts at a retained position, and the first round of
  -- its consumer does not find an overrun, whatever the options.
  pub initial_pos-retained :
      (actor : String) (cutoff : ℕ) (o : WatchOptions Xid) (e : Events Xid)
      → e.gap < e.cap
      → 0 < e.gap
      → let p = initial_pos search is_nil is_after is_late d cutoff o e in
        (e.write_pos - (e.cap - e.gap) ≤ p) × (p ≤ e.write_pos) × (consume d actor e p ≢ overrun)
  initial_pos-retained actor cutoff o e h g =
      let b = start_of-bounds cutoff o e h in
      (b.0, b.1, near-ne-overrun d actor e (start_of cutoff o e) (omega (arith, b.0)))

  -- A watch for the last events gets exactly the number asked for, as far as events were published and
  -- are within the history of `cap - gap`; a negative number asks for all of those.
  pub initial_pos_tail :
      (cutoff : ℕ) (o : WatchOptions Xid) (e : Events Xid)
      → e.gap < e.cap
      → is_zero o.tail_events ≡ false
      → e.write_pos - start_of cutoff o e ≡ asked o.tail_events (min (e.cap - e.gap) e.write_pos)
  unfolding initial_pos is_zero
  initial_pos_tail cutoff o e h q = ground arith

  -- With no gap the documented history of `cap - gap` events is not available: once the buffer is
  -- full, a watch for all past events starts at a position that its consumer takes for overrun.
  pub initial_pos_no_gap :
      (actor : String) (cutoff n : ℕ) (o : WatchOptions Xid) (e : Events Xid)
      → e.gap ≡ 0
      → 0 < e.cap
      → e.cap ≤ e.write_pos
      → o.tail_events ≡ negsuc n
      → consume d actor e (start_of cutoff o e) ≡ overrun
  unfolding is_zero
  initial_pos_no_gap actor cutoff n o e g c full q =
      let t = initial_pos_tail cutoff o e (omega arith) (rw (q, is_zero)) in
      far-overrun d actor e (start_of cutoff o e) (ground arith) (ground arith)

  by_id :
      (cutoff : ℕ) (o : WatchOptions Xid) (e : Events Xid)
      → o.tail_events ≡ pos 0
      → is_nil o.tail_id ≡ false
      → start_of cutoff o e
        ≡ e.write_pos
          - (e.cap - e.gap)
          + search
              (e.write_pos - (e.write_pos - (e.cap - e.gap)))
              (λ i. is_after (slot d e (e.write_pos - (e.cap - e.gap) + i)).id o.tail_id)
  unfolding initial_pos is_zero
  by_id cutoff o e te ti = ground arith

  -- If the retained identifiers grow from one publish to the next, a watch from an identifier starts
  -- at the first retained event after it: none before the start is after it, all from there on are.
  pub initial_pos_after :
      (cutoff : ℕ) (o : WatchOptions Xid) (e : Events Xid)
      → e.gap < e.cap
      → o.tail_events ≡ pos 0
      → is_nil o.tail_id ≡ false
      → ((s t : ℕ)
          → e.write_pos - (e.cap - e.gap) ≤ s
          → s ≤ t
          → t < e.write_pos
          → is_after (slot d e s).id o.tail_id ≡ true
          → is_after (slot d e t).id o.tail_id ≡ true)
      → (s : ℕ) → e.write_pos - (e.cap - e.gap) ≤ s
      → s < e.write_pos
      → is_after (slot d e s).id o.tail_id ≡ leb (start_of cutoff o e) s
  initial_pos_after cutoff o e h te ti grows s low lt =
      let from : ℕ = e.write_pos - (e.cap - e.gap) in
      let test : ℕ → Bool = λ i. is_after (slot d e (from + i)).id o.tail_id in
      let range : ℕ = e.write_pos - from in
      let mono : (i j : ℕ) → i ≤ j → j < range → test i ≡ true → test j ≡ true =
        λ i j le lt' t. grows (from + i) (from + j) (omega arith) (omega arith) (omega arith) t in
      let here : from + (s - from) ≡ s = omega arith in
      let begins : start_of cutoff o e ≡ from + search range test = by_id cutoff o e te ti in
      rw begins (elim (dec_lt (s - from) (search range test)) [
        | yes early ↦
            (rw here at (good.before range test mono (s - from) early))
            ∙ sym (leb-false (from + search range test) s (omega arith))
        | no late ↦
            (rw here at (good.after range test mono (s - from) (omega arith) (omega arith)))
            ∙ sym (leb-true (from + search range test) s (omega arith))
      ])
