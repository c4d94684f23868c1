-- ===== src/Logging/Tests.antt =====
-- The logs of `SimpleLoggingManager`: apid ends while udevd runs.
use tailscale_os.Base.{ℕ, ◌≡◌, refl, true, false, none, some, List, [], ◌∷◌, replicate, succeeds}
use tailscale_os.Goroutine.{GoroutineScript, returns, because, wrapped_main}
use tailscale_os.Logging.Console.{Logs, Act, prints, copies, ends, is_copied, write_log, act, run}
use tailscale_os.Logging.Silent.{silent_after}

-- The 26 characters of "2006/01/02 15:04:05.000000", each as a zero.
abbrev stamp : List ℕ
stamp = replicate 26 48

abbrev line : List ℕ
line = 104 ∷ 105 ∷ 10 ∷ []

abbrev fails_to_listen : GoroutineScript
fails_to_listen = record {
  writer_err = none;
  main = returns (some (because "address already in use"));
  close_err = none;
  exits_first = true;
  exits_in_time = true;
}

abbrev udevd_runs : Logs
udevd_runs = record {
  console = record { is_open = true; lines = (104 ∷ []) ∷ [] };
  copiers = "udevd" ∷ [];
}

abbrev later : List Act
later = copies "udevd" stamp line ∷ prints stamp line ∷ []

silent_after_example :
    let y = run later (act (ends fails_to_listen) udevd_runs) in
    (y.console.lines ≡ (104 ∷ []) ∷ [])
    × (succeeds (write_log stamp line y.console).0.1 ≡ false)
    × (is_copied "udevd" (act (copies "udevd" stamp line) y).copiers ≡ false)
unfolding wrapped_main
silent_after_example = silent_after (ends fails_to_listen) later udevd_runs "udevd" stamp line refl
