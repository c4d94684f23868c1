-- ===== src/History/Tests.antt =====
-- The history of a service at three events.
use tailscale_os.Base.{ℕ, ◌≡◌, refl, [], ◌∷◌, List, String}
use tailscale_os.Base.Int.{pos}
use tailscale_os.Health.{zero_status}
use tailscale_os.History.{ServiceEvent, ServiceState, starting, waiting, running, get}
use tailscale_os.History.Refine.{push_all, get-push_all}

abbrev event : ℕ → ServiceState → String → ServiceEvent
event t s m = record { message = m; state = s; health = zero_status; timestamp = t }

-- The newest first.
abbrev three : List ServiceEvent
three =
    event 3 running "Started"
    ∷ event 2 waiting "Waiting for network"
    ∷ event 1 starting "Starting service"
    ∷ []

get-push_all_example :
    (get (push_all three) (pos 2)
      ≡ event 2 waiting "Waiting for network" ∷ event 3 running "Started" ∷ [])
    × ((push_all three).discarded ≡ 0)
get-push_all_example = get-push_all three 2 (refl, (refl, (refl, tt)))
