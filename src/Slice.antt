-- ===== src/Slice.antt =====
-- The removal loop that `health/status.go` and `service_runner.go` both write out in `Unsubscribe`:
-- a match is overwritten by the last entry, the slice is shortened, and the index stays.
pub mod Removal
mod Tests
use tailscale_os.Base.{
  ℕ, zero, suc, ◌+◌, ◌-◌, List, length, get_or, set, take, ltb, ◌==◌, if◌then◌else◌,
}

-- `s[i] = s[len(s)-1]; s = s[:len(s)-1]`
pub swap_remove : ℕ → List ℕ → List ℕ
swap_remove i xs = take (length xs - 1) (set xs i (get_or xs (length xs - 1) 0))

-- One round: an entry that differs is passed over. The first argument bounds the rounds.
remove_from : ℕ → ℕ → ℕ → List ℕ → List ℕ
remove_from zero ch i xs = xs
remove_from (suc fuel) ch i xs =
    let found = get_or xs i 0 == ch in
    let rest =
      remove_from fuel ch (if found then i else i + 1) (if found then swap_remove i xs else xs) in
    if ltb i (length xs) then rest else xs

-- Each round shortens the slice or moves the index, so `len(s)` rounds are enough.
unfoldable pub remove_all : ℕ → List ℕ → List ℕ
unfolding remove_from swap_remove
remove_all ch xs = remove_from (length xs) ch 0 xs
