-- ===== src/Logging/Silent.antt =====
-- What the end of one log does to the others.
use tailscale_os.Base.{
  ℕ, ◌≡◌, ◌&&◌, refl, Bool, true, false, not, ◌==◌, none, some, List, [], ◌∷◌, String, str_eq, keep,
  is_some, succeeds, arith, ap, ◌∙◌,
}
use tailscale_os.Goroutine.{wrapped_main}
use tailscale_os.Process.Build.{build, holds, pipe_writer, Built}
use tailscale_os.Logging.{Written}
use tailscale_os.Logging.Console.{
  Console, write_log, close_log, Logs, Act, prints, builds, copies, ends, is_copied, after_copy,
  after_build, act, run,
}

-- Whether an act closes a log: the function of a goroutine service comes to its end with its writer, or a
-- build gives up once it has opened the log.
abbrev pub closes : Act → Bool
closes (ends s) = not ((wrapped_main s).1 == 0)
closes (builds id f s) = not (is_some (build f s).wrapper) && holds (build f s).closed pipe_writer
closes _ = false

write_shut :
    (stamp line : List ℕ) (c : Console)
    → c.is_open ≡ false
    → (succeeds (write_log stamp line c).0.1 ≡ false) × ((write_log stamp line c).1 ≡ c)
unfolding write_log
write_shut stamp line c h = ground (arith, h)

close_shut : (c : Console) → c.is_open ≡ false → close_log c ≡ c
unfolding close_log
close_shut c h = ground (arith, h)

after_copy_shut :
    (id : String) (r : Written) (c : Console) (x : Logs)
    → c.is_open ≡ false
    → (after_copy id (r, c) x).console ≡ c
unfolding after_copy
after_copy_shut id (n, none) c x h = refl
after_copy_shut id (n, some e) c x h = close_shut c h

after_build_shut :
    (id : String) (b : Built) (x : Logs)
    → x.console.is_open ≡ false
    → (after_build id b x).console ≡ x.console
unfolding after_build
after_build_shut id b x h = ground (arith, close_shut x.console h)

-- Once it is closed, the console stays as it is.
act_shut : (a : Act) (x : Logs) → x.console.is_open ≡ false → (act a x).console ≡ x.console
unfolding act
act_shut (prints stamp line) x h = (write_shut stamp line x.console h).1
act_shut (builds id f s) x h = after_build_shut id (build f s) x h
act_shut (copies id stamp line) x h =
    let w = (write_shut stamp line x.console h).1 in
    ground (
      arith,
      w,
      after_copy_shut id (write_log stamp line x.console).0 (write_log stamp line x.console).1 x,
    )
act_shut (ends s) x h = ground (arith, close_shut x.console h)

run_shut :
    (acts : List Act) (x : Logs) → x.console.is_open ≡ false → (run acts x).console ≡ x.console
unfolding run
run_shut [] x h = refl
run_shut (a ∷ acts) x h =
    let here = act_shut a x h in
    run_shut acts (act a x) (ap (λ (c : Console). c.is_open) here ∙ h) ∙ here

closes_shut : (a : Act) (x : Logs) → closes a ≡ true → (act a x).console ≡ close_log x.console
unfolding act after_build
closes_shut (prints stamp line) x h = cc
closes_shut (builds id f s) x h = ground (arith, h)
closes_shut (copies id stamp line) x h = cc
closes_shut (ends s) x h = ground (arith, h)

is_copied-keep :
    (id : String) (js : List String) → is_copied id (keep (λ j. not (str_eq j id)) js) ≡ false
is_copied-keep id [] = refl
is_copied-keep id (j ∷ js) = ground (arith, is_copied-keep id js)

after_copy_ends :
    (id : String) (r : Written) (c : Console) (x : Logs)
    → succeeds r.1 ≡ false
    → is_copied id (after_copy id (r, c) x).copiers ≡ false
unfolding after_copy
after_copy_ends id (n, none) c x h = cc
after_copy_ends id (n, some e) c x h = is_copied-keep id x.copiers

copies_ends :
    (id : String) (stamp line : List ℕ) (x : Logs)
    → x.console.is_open ≡ false
    → is_copied id (act (copies id stamp line) x).copiers ≡ false
unfolding act
copies_ends id stamp line x h =
    let w = write_log stamp line x.console in
    ground (arith, after_copy_ends id w.0 w.1 x, write_shut stamp line x.console h)

-- With the logs of `SimpleLoggingManager`, once the function of one goroutine service that has its log has come
-- to its end, or one build of a process has given up on a file, no line of any service reaches the console,
-- whatever they do after: each write fails, and the copier of a process ends with the next output of it.
pub silent_after :
    (a : Act) (acts : List Act) (x : Logs) (id : String) (stamp line : List ℕ)
    → closes a ≡ true
    → let y = run acts (act a x) in
      (y.console.lines ≡ x.console.lines)
      × (succeeds (write_log stamp line y.console).0.1 ≡ false)
      × (is_copied id (act (copies id stamp line) y).copiers ≡ false)
unfolding close_log
silent_after a acts x id stamp line h =
    let first = closes_shut a x h in
    let shut : (act a x).console.is_open ≡ false = ap (λ (c : Console). c.is_open) first in
    let all = run_shut acts (act a x) shut in
    let still = ap (λ (c : Console). c.is_open) all ∙ shut in
    (
      ap (λ (c : Console). c.lines) all ∙ ap (λ (c : Console). c.lines) first,
      (write_shut stamp line (run acts (act a x)).console still).0,
      copies_ends id stamp line (run acts (act a x)) still,
    )
