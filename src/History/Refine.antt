-- ===== src/History/Refine.antt =====
-- The ring of events against the list of all events that were pushed, newest first.
use mathlib.Core.List.{reverse-cons}
use native.Mathlib.Decide.{dec_lt}
use tailscale_os.Base.{
  ℕ, zero, suc, ◌+◌, ◌-◌, ◌%◌, ◌^◌, ◌≤◌, ◌<◌, ◌≡◌, refl, sym, ap, ◌∙◌, true, false, none, List, [],
  ◌∷◌, ◌++◌, reverse, Option-cases, inl, inr, length, get_or, set, take, All, leb, if◌then◌else◌,
  arith, length-set, get_or-set_self, get_or-set_ne, get_or-replicate, min,
}
use tailscale_os.Base.Int.{pos}
use tailscale_os.History.{
  ServiceEvent, ServiceEvents, zero_event, no_events, is_vacant, slots, push, get, get_from,
}

-- An event that `Get` does not take for a free slot.
abbrev pub IsNamed : ServiceEvent → Type 0
IsNamed e = is_vacant e ≡ false

abbrev past : ℕ → List ServiceEvent → ServiceEvent
past k h = get_or h k zero_event

-- The ring holds the history `h`, newest first: going back from `pos`, the slots hold its entries.
pub record Holds (es : ServiceEvents) (h : List ServiceEvent) : Type 0 where
  pub size : length (slots es) ≡ 64
  pub pos_in : es.pos < 64
  pub slot : (k : ℕ) → k < 64 → get_or (slots es) ((es.pos + 63 - k) % 64) zero_event ≡ past k h
  pub named : All IsNamed h
  pub lost : es.discarded ≡ (length h - 64) % 2 ^ 64
  pub fresh : es.events ≡ none → h ≡ []

pub no_events-Holds : Holds no_events []
no_events-Holds = record {
  size = refl;
  pos_in = omega arith;
  slot = λ k lt. get_or-replicate 64 ((0 + 63 - k) % 64) zero_event;
  named = tt;
  lost = refl;
  fresh = λ _. refl;
}

past-IsNamed : (h : List ServiceEvent) (k : ℕ) → All IsNamed h → k < length h → IsNamed (past k h)
past-IsNamed [] k n lt = absurd (omega arith)
past-IsNamed (e ∷ h) zero n lt = n.0
past-IsNamed (e ∷ h) (suc k) n lt = past-IsNamed h k n.1 (omega arith)

past_beyond : (h : List ServiceEvent) (k : ℕ) → length h ≤ k → past k h ≡ zero_event
past_beyond [] k le = refl
past_beyond (e ∷ h) zero le = absurd (omega arith)
past_beyond (e ∷ h) (suc k) le = past_beyond h k (omega arith)

module _ (es : ServiceEvents) (h : List ServiceEvent) (e : ServiceEvent) (r : Holds es h) where
  slot_after :
      (k : ℕ)
      → k < 64
      → get_or (set (slots es) es.pos e) (((es.pos + 1) % 64 + 63 - k) % 64) zero_event
        ≡ past k (e ∷ h)
  slot_after zero lt =
      let at : ((es.pos + 1) % 64 + 63 - 0) % 64 ≡ es.pos = omega (arith, r.pos_in) in
      rw at (get_or-set_self (slots es) es.pos e zero_event (omega (arith, r.pos_in, r.size)))
  slot_after (suc k) lt =
      let at : ((es.pos + 1) % 64 + 63 - suc k) % 64 ≡ (es.pos + 63 - k) % 64 =
        omega (arith, r.pos_in) in
      rw at (
        get_or-set_ne (slots es) es.pos ((es.pos + 63 - k) % 64) e zero_event
          (omega (arith, r.pos_in))
        ∙ r.slot k (omega arith))

  oldest : get_or (slots es) es.pos zero_event ≡ past 63 h
  oldest =
      let at : (es.pos + 63 - 63) % 64 ≡ es.pos = omega (arith, r.pos_in) in
      rw at at (r.slot 63 (omega arith))

  -- The slot that is overwritten holds the 64th last event, if there is one.
  lost_after : (push e es).discarded ≡ (suc (length h) - 64) % 2 ^ 64
  unfolding push
  lost_after = elim (dec_lt 63 (length h)) [
    | yes old ↦
        let occupied : IsNamed (get_or (slots es) es.pos zero_event) =
          rw oldest (past-IsNamed h 63 r.named old) in
        rw occupied (omega (arith, r.lost))
    | no free ↦
        let vacant : is_vacant (get_or (slots es) es.pos zero_event) ≡ true =
          rw (oldest, past_beyond h 63 (omega arith)) in
        rw vacant (omega (arith, r.lost))
  ]

  -- `Push` adds its event to the history, whatever was there.
  pub push-Holds : IsNamed e → Holds (push e es) (e ∷ h)
  unfolding push
  push-Holds n = record {
    size = length-set (slots es) es.pos e ∙ r.size;
    pos_in = ground (arith, r.size, r.pos_in);
    slot = λ k lt. rw r.size (slot_after k lt);
    named = (n, r.named);
    lost = lost_after;
    fresh = λ x. cc;
  }

-- The last `n` events of the history, the most recent one last.
abbrev pub latest : ℕ → List ServiceEvent → List ServiceEvent
latest n h = reverse (take n h)

latest-suc :
    (n : ℕ) (h : List ServiceEvent) → n < length h → latest (suc n) h ≡ past n h ∷ latest n h
latest-suc n [] lt = absurd (omega arith)
latest-suc zero (e ∷ h) lt = reverse-cons e []
latest-suc (suc n) (e ∷ h) lt =
    reverse-cons e (take (suc n) h)
    ∙ ap (λ xs. xs ++ (e ∷ [])) (latest-suc n h (omega arith))
    ∙ ap (λ xs. past n h ∷ xs) (sym (reverse-cons e (take n h)))

take_beyond : (n : ℕ) (h : List ServiceEvent) → length h ≤ n → take (suc n) h ≡ take n h
take_beyond zero [] le = refl
take_beyond (suc n) [] le = refl
take_beyond zero (e ∷ h) le = absurd (omega arith)
take_beyond (suc n) (e ∷ h) le = ap (◌∷◌ e) (take_beyond n h (omega arith))

clamp_min : (n : ℕ) → (if leb n 64 then n else 64) ≡ min n 64
clamp_min n = ground arith

take_nil : (n : ℕ) → take {A = ServiceEvent} n [] ≡ []
take_nil zero = refl
take_nil (suc n) = refl

module _ (es : ServiceEvents) (h : List ServiceEvent) (r : Holds es h) where
  get_from-latest : (n : ℕ) → n ≤ 64 → get_from (slots es) n ((es.pos + 64 - n) % 64) ≡ latest n h
  unfolding get_from
  get_from-latest zero le = refl
  get_from-latest (suc n) le =
      let at : (es.pos + 64 - suc n) % 64 ≡ (es.pos + 63 - n) % 64 = omega arith in
      let next : ((es.pos + 63 - n) % 64 + 1) % 64 ≡ (es.pos + 64 - n) % 64 =
        omega (arith, r.pos_in) in
      rw (at, r.size, r.slot n (omega arith), next, get_from-latest n (omega arith))
        (elim (dec_lt n (length h)) [
          | yes lt ↦ rw (past-IsNamed h n r.named lt) (sym (latest-suc n h lt))
          | no ge ↦
              rw (past_beyond h n (omega arith)) (ap reverse (sym (take_beyond n h (omega arith))))
        ])

  -- `Get` returns the last `count` events in the order in which they were pushed, at most the 64 that
  -- are kept, and none for a negative count.
  pub get-latest : (count : ℕ) → get es (pos count) ≡ latest (min count 64) h
  unfolding get
  get-latest count = elim (Option-cases es.events) [
    | inl e ↦ rw (e, get, r.fresh e, take_nil (min count 64))
    | inr (buf, e) ↦
        let same : slots es ≡ buf = rw e refl in
        let size : length buf ≡ 64 = ap length (sym same) ∙ r.size in
        rw (e, get, clamp_min count, size)
          (ap (λ b. get_from b (min count 64) ((es.pos + 64 - min count 64) % 64)) (sym same)
            ∙ get_from-latest (min count 64) (omega arith))
  ]

-- The history after a run of `Push`, the newest event first.
unfoldable pub push_all : List ServiceEvent → ServiceEvents
push_all [] = no_events
push_all (e ∷ h) = push e (push_all h)

push_all-Holds : (h : List ServiceEvent) → All IsNamed h → Holds (push_all h) h
unfolding push_all
push_all-Holds [] n = no_events-Holds
push_all-Holds (e ∷ h) n = push-Holds (push_all h) h e (push_all-Holds h n.1) n.0

-- After any run of pushes of events with a message, `Get` returns the last `count` of them (at most
-- 64), the most recent one last, and `discarded` has counted the ones that were overwritten, modulo
-- the width of its type.
pub get-push_all :
    (h : List ServiceEvent) (count : ℕ)
    → All IsNamed h
    → (get (push_all h) (pos count) ≡ latest (min count 64) h)
      × ((push_all h).discarded ≡ (length h - 64) % 2 ^ 64)
get-push_all h count n =
    (get-latest (push_all h) h (push_all-Holds h n) count, (push_all-Holds h n).lost)
