-- ===== src/Slice/Removal.antt =====
-- The removal loop takes out every copy of one entry and keeps all others as often as they stood.
use native.Mathlib.Decide.{ℕ_discrete, dec_lt}
use native.Mathlib.Numerals.{add-one}
use tailscale_os.Base.{
  ℕ, zero, suc, ◌+◌, ◌-◌, ◌≤◌, ◌<◌, ◌≡◌, ◌≢◌, refl, sym, ap, ◌∙◌, List, [], ◌∷◌, length, get_or,
  set, take, count, keep, not, ◌==◌, if◌then◌else◌, arith, get_or-set_self, get_or-set_ne,
  length-set,
}
use tailscale_os.Slice.{swap_remove, remove_from, remove_all}

abbrev one_if : ℕ → ℕ → ℕ
one_if a b = if a == b then 1 else 0

count-set :
    (d : ℕ) (xs : List ℕ) (i v : ℕ)
    → i < length xs
    → count d (set xs i v) + one_if d (get_or xs i 0) ≡ count d xs + one_if d v
count-set d [] i v h = absurd (omega arith)
count-set d (x ∷ xs) zero v h = ground arith
count-set d (x ∷ xs) (suc i) v h = ground (arith, count-set d xs i v)

count-init :
    (d : ℕ) (xs : List ℕ) (n : ℕ)
    → length xs ≡ suc n
    → count d xs ≡ count d (take n xs) + one_if d (get_or xs n 0)
count-init d [] n h = absurd (omega arith)
count-init d (x ∷ []) zero h = ground arith
count-init d (x ∷ y ∷ ys) zero h = absurd (omega arith)
count-init d (x ∷ xs) (suc n) h = ground (arith, count-init d xs n (omega arith))

last-set :
    (xs : List ℕ) (i n : ℕ) → n < length xs → get_or (set xs i (get_or xs n 0)) n 0 ≡ get_or xs n 0
last-set xs i n h = elim (ℕ_discrete i n) [
  | yes e ↦ rw e (get_or-set_self xs n (get_or xs n 0) 0 h)
  | no ne ↦ get_or-set_ne xs i n (get_or xs n 0) 0 ne
]

count-swap_remove :
    (d i : ℕ) (xs : List ℕ)
    → i < length xs
    → count d xs ≡ count d (swap_remove i xs) + one_if d (get_or xs i 0)
unfolding swap_remove
count-swap_remove d i xs h = omega (
  arith,
  count-set d xs i (get_or xs (length xs - 1) 0) h,
  count-init d (set xs i (get_or xs (length xs - 1) 0)) (length xs - 1)
      (omega (arith, length-set xs i (get_or xs (length xs - 1) 0))),
  ap (one_if d) (last-set xs i (length xs - 1) (omega arith)),
)

length-take : (n : ℕ) (xs : List ℕ) → n ≤ length xs → length (take n xs) ≡ n
length-take zero xs h = refl
length-take (suc n) [] h = absurd (omega arith)
length-take (suc n) (x ∷ xs) h = ap suc (length-take n xs (omega arith))

length-swap_remove : (i : ℕ) (xs : List ℕ) → length (swap_remove i xs) ≡ length xs - 1
unfolding swap_remove
length-swap_remove i xs =
    length-take (length xs - 1) (set xs i (get_or xs (length xs - 1) 0))
      (omega (arith, length-set xs i (get_or xs (length xs - 1) 0)))

count-take-take :
    (d i n : ℕ) (xs : List ℕ) → i ≤ n → count d (take i (take n xs)) ≡ count d (take i xs)
count-take-take d zero n xs h = refl
count-take-take d (suc i) zero xs h = absurd (omega arith)
count-take-take d (suc i) (suc n) [] h = refl
count-take-take d (suc i) (suc n) (x ∷ xs) h =
    ground (arith, count-take-take d i n xs (omega arith))

count-take-set :
    (d i : ℕ) (xs : List ℕ) (v : ℕ) → count d (take i (set xs i v)) ≡ count d (take i xs)
count-take-set d zero xs v = refl
count-take-set d (suc i) [] v = refl
count-take-set d (suc i) (x ∷ xs) v = ground (arith, count-take-set d i xs v)

-- What stands before the removed index stays.
count-take-swap_remove :
    (d i : ℕ) (xs : List ℕ)
    → i < length xs
    → count d (take i (swap_remove i xs)) ≡ count d (take i xs)
unfolding swap_remove
count-take-swap_remove d i xs h =
    count-take-take d i (length xs - 1) (set xs i (get_or xs (length xs - 1) 0)) (omega arith)
    ∙ count-take-set d i xs (get_or xs (length xs - 1) 0)

count-take-suc :
    (d i : ℕ) (xs : List ℕ)
    → i < length xs
    → count d (take (suc i) xs) ≡ count d (take i xs) + one_if d (get_or xs i 0)
count-take-suc d i [] h = absurd (omega arith)
count-take-suc d zero (x ∷ xs) h = ground arith
count-take-suc d (suc i) (x ∷ xs) h = ground (arith, count-take-suc d i xs (omega arith))

take_all : (n : ℕ) (xs : List ℕ) → length xs ≤ n → take n xs ≡ xs
take_all zero [] h = refl
take_all zero (x ∷ xs) h = absurd (omega arith)
take_all (suc n) [] h = refl
take_all (suc n) (x ∷ xs) h = ap (◌∷◌ x) (take_all n xs (omega arith))

-- A slice in which no entry up to its end is `ch` has no `ch`.
count-of_take : (d n : ℕ) (xs : List ℕ) → length xs ≤ n → count d (take n xs) ≡ 0 → count d xs ≡ 0
count-of_take d n xs h e = ap (count d) (sym (take_all n xs h)) ∙ e

count-take_next :
    (d i : ℕ) (xs : List ℕ)
    → i < length xs
    → get_or xs i 0 ≢ d
    → count d (take i xs) ≡ 0
    → count d (take (i + 1) xs) ≡ 0
count-take_next d i xs h ne e = rw add-one (ground (arith, count-take-suc d i xs h))

remove_from-count :
    (fuel ch i : ℕ) (xs : List ℕ) (d : ℕ)
    → length xs ≤ fuel + i
    → count ch (take i xs) ≡ 0
    → count d (remove_from fuel ch i xs) ≡ (if ch == d then 0 else count d xs)
unfolding remove_from
remove_from-count zero ch i xs d h seen = ground (arith, count-of_take ch i xs (omega arith) seen)
remove_from-count (suc fuel) ch i xs d h seen = elim (dec_lt i (length xs)) [
  | no over ↦ ground (arith, count-of_take ch i xs (omega arith) seen)
  | yes inside ↦ elim (ℕ_discrete (get_or xs i 0) ch) [
    | yes e ↦ ground (
      arith,
      count-swap_remove d i xs inside,
      remove_from-count fuel ch i (swap_remove i xs) d (omega (arith, length-swap_remove i xs))
          (count-take-swap_remove ch i xs inside ∙ seen),
    )
    | no ne ↦ ground (
      arith,
      remove_from-count fuel ch (i + 1) xs d (omega arith) (count-take_next ch i xs inside ne seen),
    )
  ]
]

-- `Unsubscribe` removes every copy of `ch`, and keeps any other entry as often as it stood.
pub count-remove_all :
    (ch : ℕ) (xs : List ℕ) (d : ℕ)
    → count d (remove_all ch xs) ≡ (if ch == d then 0 else count d xs)
unfolding remove_all
count-remove_all ch xs d = remove_from-count (length xs) ch 0 xs d (omega arith) refl

-- The entries that a filter keeps.
abbrev pub without : ℕ → List ℕ → List ℕ
without ch xs = keep (λ x. not (x == ch)) xs

count-without :
    (ch : ℕ) (xs : List ℕ) (d : ℕ) → count d (without ch xs) ≡ (if ch == d then 0 else count d xs)
count-without ch [] d = ground arith
count-without ch (x ∷ xs) d = ground (arith, count-without ch xs d)

-- The loop of `Unsubscribe`, which swaps each entry that it removes with the last one, leaves the same
-- entries, each as often, as a filter that drops every copy of the channel and keeps the rest.
pub remove_all-eq-without :
    (ch : ℕ) (xs : List ℕ) (d : ℕ) → count d (remove_all ch xs) ≡ count d (without ch xs)
remove_all-eq-without ch xs d = count-remove_all ch xs d ∙ sym (count-without ch xs d)
