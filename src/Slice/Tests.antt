-- ===== src/Slice/Tests.antt =====
-- The removal loop at a concrete slice.
use tailscale_os.Base.{ℕ, ◌≡◌, List, [], ◌∷◌, count}
use tailscale_os.Slice.{remove_all}
use tailscale_os.Slice.Removal.{without, remove_all-eq-without}

abbrev channels : List ℕ
channels = 4 ∷ 7 ∷ 4 ∷ 9 ∷ 4 ∷ []

remove_all-eq-without_example : count 9 (remove_all 4 channels) ≡ count 9 (without 4 channels)
remove_all-eq-without_example = remove_all-eq-without 4 channels 9
