-- ===== src/Udevd/Tests.antt =====
-- A first check whose second trigger fails, and two more.
use tailscale_os.Base.{◌≡◌, refl, none, some, List, [], ◌∷◌}
use tailscale_os.Udevd.{CheckScript, new_udevd, run_checks, health_check}

abbrev passes : CheckScript
passes = record {
  file_err = none;
  reload_err = none;
  devices_err = none;
  subsystems_err = none;
  settle_err = none;
  settled_at = 20;
  now = 21;
  deadline = none;
}

abbrev checks : List CheckScript
checks = record passes { subsystems_err = some "exit status 1" } ∷ passes ∷ passes ∷ []

second_is_healthy : (run_checks checks (new_udevd 0)).1.1 ≡ some "exit status 1" ∷ none ∷ none ∷ []
unfolding run_checks health_check
second_is_healthy = refl
