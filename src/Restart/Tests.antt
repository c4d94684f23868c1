-- ===== src/Restart/Tests.antt =====
-- A restarter that restarts until a run succeeds.
use tailscale_os.Base.{◌≡◌, refl, true, false, none, some, String, Option, [], ◌∷◌}
use tailscale_os.Base.Int.{pos}
use tailscale_os.Restart.{until_success, Round, RunStatus, run_restarting}
use tailscale_os.Restart.Rounds.{run_restarting_ends}

abbrev ran : RunStatus
ran = record { started = true; exit_code = pos 0 }

abbrev round : Option String → Round
round e = record { status = ran; err = e; done_after = false; done_waiting = false }

run_restarting_ends_example :
    (run_restarting "Process" until_success
      (round (some "exit 1") ∷ round (some "exit 2") ∷ round none ∷ round none ∷ [])).1
    ≡ some (ran, none)
run_restarting_ends_example =
    run_restarting_ends "Process" until_success (round (some "exit 1") ∷ round (some "exit 2") ∷ [])
      (round none) (round none ∷ []) (refl, (refl, tt)) refl
