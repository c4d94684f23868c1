-- ===== src/Chan.antt =====
-- Buffered Go channels in a store that is indexed by channel identity. The program's non-blocking
-- sends (`select { case ch <- v: default: }`) go to channels of capacity one or more, so a waiting
-- receiver implies an empty buffer, and the send takes place exactly if the buffer has room.
use tailscale_os.Base.{
  ℕ, ◌<◌, ◌≤◌, ◌≡◌, refl, List, [], ◌∷◌, ◌++◌, length, count, length-append, ltb, ◌==◌,
  if◌then◌else◌, arith, Option, none, some,
}

pub record Chan {ℓ} (A : Type ℓ) : Type ℓ where
  pub cap : ℕ
  pub buffer : List A

abbrev pub Store {ℓ} : Type ℓ → Type ℓ
Store A = ℕ → Chan A

module _ {ℓ} {A : Type ℓ} where
  -- `make(chan T, cap)`
  abbrev pub make : ℕ → Chan A
  make cap = record { cap = cap; buffer = [] }

  abbrev pub update : Store A → ℕ → Chan A → Store A
  update st i c j = if i == j then c else st j

  -- `select { case ch <- v: default: }` on one channel.
  unfoldable pub try_send : A → Chan A → Chan A
  try_send v c =
      if ltb (length c.buffer) c.cap then record c { buffer = c.buffer ++ (v ∷ []) } else c

  -- The loop over a snapshot of the subscribers.
  unfoldable pub send_all : A → List ℕ → Store A → Store A
  send_all v [] st = st
  send_all v (ch ∷ chs) st = send_all v chs (update st ch (try_send v (st ch)))

  -- `<-ch` on a buffered channel; `none` where it would block.
  unfoldable pub receive : ℕ → Store A → Option (A × Store A)
  receive ch st = elim ((st ch).buffer) [
    | [] ↦ none
    | v ∷ rest ↦ some (v, update st ch (record (st ch) { buffer = rest }))
  ]

  pub cap-try_send : (v : A) (c : Chan A) → (try_send v c).cap ≡ c.cap
  unfolding try_send
  cap-try_send v c = ground arith

  -- A send neither blocks nor overfills: the buffer stays within the capacity.
  pub try_send-bounded :
      (v : A) (c : Chan A) → length c.buffer ≤ c.cap → length (try_send v c).buffer ≤ c.cap
  unfolding try_send
  try_send-bounded v c h = ground (arith, length-append c.buffer (v ∷ []))

  pub length-try_send : (v : A) (c : Chan A) → length c.buffer ≤ length (try_send v c).buffer
  unfolding try_send
  length-try_send v c = ground (arith, length-append c.buffer (v ∷ []))

  -- After a send a channel with room for one value holds one.
  pub try_send_wakes : (v : A) (c : Chan A) → 0 < c.cap → 0 < length (try_send v c).buffer
  unfolding try_send
  try_send_wakes v c h = ground (arith, length-append c.buffer (v ∷ []))

  pub send_all-keeps :
      (v : A) (chs : List ℕ) (st : Store A) (ch : ℕ)
      → length (st ch).buffer ≤ length ((send_all v chs st) ch).buffer
  unfolding send_all
  send_all-keeps v [] st ch = omega arith
  send_all-keeps v (c ∷ chs) st ch =
      ground
        (arith, send_all-keeps v chs (update st c (try_send v (st c))) ch, length-try_send v (st c))

  pub cap-send_all :
      (v : A) (chs : List ℕ) (st : Store A) (ch : ℕ) → ((send_all v chs st) ch).cap ≡ (st ch).cap
  unfolding send_all
  cap-send_all v [] st ch = refl
  cap-send_all v (c ∷ chs) st ch =
      ground (arith, cap-send_all v chs (update st c (try_send v (st c))) ch, cap-try_send v (st c))

  -- Whoever is in the snapshot and has room for one value finds a value afterwards.
  pub send_all_wakes :
      (v : A) (chs : List ℕ) (st : Store A) (ch : ℕ)
      → 0 < (st ch).cap
      → 0 < count ch chs
      → 0 < length ((send_all v chs st) ch).buffer
  unfolding send_all
  send_all_wakes v [] st ch h m = absurd (omega arith)
  send_all_wakes v (c ∷ chs) st ch h m = ground (
    arith,
    send_all_wakes v chs (update st c (try_send v (st c))) ch,
    send_all-keeps v chs (update st c (try_send v (st c))) ch,
    cap-try_send v (st c),
    try_send_wakes v (st c),
  )

  -- A channel that is not in the snapshot is left alone.
  pub send_all_others :
      (v : A) (chs : List ℕ) (st : Store A) (ch : ℕ)
      → count ch chs ≡ 0
      → (send_all v chs st) ch ≡ st ch
  unfolding send_all
  send_all_others v [] st ch h = refl
  send_all_others v (c ∷ chs) st ch h =
      ground (arith, send_all_others v chs (update st c (try_send v (st c))) ch)
