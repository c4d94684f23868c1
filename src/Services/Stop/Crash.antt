-- ===== src/Services/Stop/Crash.antt =====
-- A shutdown of services that end.
use tailscale_os.Base.{Bool, true, false, ◌||◌, List, [], ◌∷◌}
use tailscale_os.Runner.{World}
use tailscale_os.Services.Stop.{is_concluding, Stopping, Stopped, crashed, waited}

abbrev has_runtime : World → Bool
has_runtime w = w.runner.has_runtime

abbrev pub is_crash : Stopped → Bool
is_crash crashed = true
is_crash (waited r) = false

abbrev pub any_concluding : List Stopping → Bool
any_concluding [] = false
any_concluding (s ∷ ss) = is_concluding s.fate || any_concluding ss
