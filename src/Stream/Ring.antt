-- ===== src/Stream/Ring.antt =====
-- The ring buffer against the log of everything that was ever published, oldest first.
use native.Mathlib.Nat.{div-add-mod, mod-lt}
use native.Mathlib.Decide.{dec_lt, ℕ_discrete}
use tailscale_os.Base.{
  ℕ, zero, suc, ◌+◌, ◌/◌, ◌%◌, ◌≤◌, ◌<◌, ◌≡◌, ◌≢◌, refl, sym, ◌∙◌, List, [], ◌∷◌, ◌++◌, length,
  get_or, set, arith, length-set, length-append, get_or-set_self, get_or-set_ne, length-replicate,
  some,
}
use tailscale_os.Stream.{Event, Events, slot, publish, new_events}

-- Numbers less than `m` apart have different slots.
mod-ne : (m s w : ℕ) → 0 < m → s < w → w < s + m → s % m ≢ w % m
mod-ne m s w hm lt near e = elim (dec_lt (s / m) (w / m)) [
  | yes up ↦ absurd (grind (arith, div-add-mod s m, div-add-mod w m))
  | no down ↦ absurd (grind (arith, div-add-mod s m, div-add-mod w m))
]

get_or-append_left {ℓ} :
    {A : Type ℓ} (xs ys : List A) (i : ℕ) (d : A)
    → i < length xs
    → get_or (xs ++ ys) i d ≡ get_or xs i d
get_or-append_left [] ys i d h = absurd (omega arith)
get_or-append_left (x ∷ xs) ys zero d h = refl
get_or-append_left (x ∷ xs) ys (suc i) d h = get_or-append_left xs ys i d (omega arith)

get_or-append_last {ℓ} :
    {A : Type ℓ} (xs : List A) (i : ℕ) (x d : A) → i ≡ length xs → get_or (xs ++ (x ∷ [])) i d ≡ x
get_or-append_last [] zero x d h = refl
get_or-append_last [] (suc i) x d h = absurd (omega arith)
get_or-append_last (y ∷ xs) zero x d h = absurd (omega arith)
get_or-append_last (y ∷ xs) (suc i) x d h = get_or-append_last xs i x d (omega arith)

pub get_or-append_le {ℓ} :
    {A : Type ℓ} (xs ys : List A) (i : ℕ) (d : A)
    → i < length xs
    → get_or (xs ++ ys) i d ≡ get_or xs i d
get_or-append_le xs ys i d h = get_or-append_left xs ys i d h

module _ {Xid : Type 0} (d : Event Xid) where
  -- The ring holds the last `cap` entries of the log.
  pub record Holds (e : Events Xid) (log : List (Event Xid)) : Type 0 where
    pub some_room : 0 < e.cap
    pub size : length e.stream ≡ e.cap
    pub written : e.write_pos ≡ length log
    pub entry : (s : ℕ) → s < e.write_pos → e.write_pos ≤ s + e.cap → slot d e s ≡ get_or log s d

  -- What `NewEvents` accepts holds the empty log, and has a slot more than its gap.
  pub new_events-Holds :
      (capacity gap : ℕ) (e : Events Xid)
      → new_events d capacity gap ≡ some e
      → Holds e [] × (e.gap < e.cap)
  unfolding new_events
  new_events-Holds capacity gap e h = elim (dec_lt gap capacity) [
    | no big ↦ absurd (ground arith)
    | yes small ↦ (
      record {
        some_room = ground arith;
        size = ground (arith, length-replicate capacity d);
        written = ground arith;
        entry = λ s lt _. absurd (ground arith);
      },
      ground arith,
    )
  ]

  -- `Publish` appends to the log, and the ring then holds the last `cap` entries of the longer log.
  pub publish-Holds :
      (e : Events Xid) (log : List (Event Xid)) (x : Event Xid)
      → Holds e log
      → Holds (publish x e) (log ++ (x ∷ []))
  unfolding publish
  publish-Holds e log x h = record {
    some_room = h.some_room;
    size = length-set e.stream (e.write_pos % e.cap) x ∙ h.size;
    written = omega (arith, h.written, length-append log (x ∷ []));
    entry = λ s lt near. after s lt near (ℕ_discrete s e.write_pos);
  }
    where
      after :
          (s : ℕ)
          → s < e.write_pos + 1
          → e.write_pos + 1 ≤ s + e.cap
          → Dec (s ≡ e.write_pos)
          → get_or (set e.stream (e.write_pos % e.cap) x) (s % e.cap) d
            ≡ get_or (log ++ (x ∷ [])) s d
      after s lt near (yes same) = rw same (
          get_or-set_self e.stream (e.write_pos % e.cap) x d
            (omega (arith, h.size, mod-lt e.write_pos h.some_room))
          ∙ sym (get_or-append_last log e.write_pos x d h.written))
      after s lt near (no other) =
          get_or-set_ne e.stream (e.write_pos % e.cap) (s % e.cap) x d
            (λ q. mod-ne e.cap s e.write_pos h.some_room (omega arith) (omega arith) (sym q))
          ∙ h.entry s (omega arith) (omega arith)
          ∙ sym (get_or-append_left log (x ∷ []) s d (omega (arith, h.written)))
