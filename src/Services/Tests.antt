-- ===== src/Services/Tests.antt =====
-- The services of a machine with two of them.
use tailscale_os.Base.{is_some, ◌+◌, ◌≡◌, true, false, [], ◌∷◌, List, lookup, length}
use tailscale_os.Runner.{new_service_runner}
use tailscale_os.Services.{Service, Act, loads, starts, leaves, run, new_services, Services}
use tailscale_os.Services.Exclusive.{number, one_if, run_exclusive}

abbrev two_services : List Service
two_services =
    record { id = "apid"; healthchecked = true }
    ∷ record { id = "udevd"; healthchecked = true }
    ∷ []

abbrev boot : List Act
boot =
    loads two_services
    ∷ starts ("apid" ∷ "udevd" ∷ "apid" ∷ [])
    ∷ leaves "udevd"
    ∷ starts ("udevd" ∷ [])
    ∷ []

run_exclusive_example :
    (number "udevd" (run boot new_services).live + number "udevd" (run boot new_services).leaving
      ≡ one_if (is_some (lookup "udevd" (run boot new_services).running)))
    × ((run boot new_services).wg ≡ length (run boot new_services).live)
run_exclusive_example = run_exclusive boot "udevd"

-- One service runs when new ones are refused.
abbrev closing : Services
closing = record {
  state = ("apid", new_service_runner "apid" true true) ∷ [];
  running = ("apid", tt) ∷ [];
  wg = 1;
  deny_new_services = true;
  terminating = false;
  live = "apid" ∷ [];
  leaving = [];
  concluding = [];
}
