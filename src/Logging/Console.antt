-- ===== src/Logging/Console.antt =====
-- pkg/runtime/logging/simple.go: the writer of each log is one over `os.Stdout`, which they all share; with
-- the goroutine runner and the process runner, which write to it and close it.
use tailscale_os.Base.{
  ℕ, ◌==◌, Bool, false, not, ◌||◌, none, some, List, [], ◌∷◌, ◌++◌, String, str_eq, length, keep,
  if◌then◌else◌, is_some,
}
use tailscale_os.Logging.{Written, Writer, stamped, stamped_line}
use tailscale_os.Goroutine.{GoroutineScript, wrapped_main}
use tailscale_os.Process.Build.{Files, BuildScript, Built, build, holds, pipe_writer}

-- `os.Stdout`, and the lines that were written to it.
pub record Console : Type 0 where
  pub is_open : Bool
  pub lines : List (List ℕ)

-- `Write` of an `os.File`.
unfoldable pub file_write : Console → Writer
file_write c p = if c.is_open then (length p, none) else (0, some "file already closed")

-- A `Write` to the writer of any log.
unfoldable pub write_log : List ℕ → List ℕ → Console → Written × Console
unfolding file_write stamped
write_log stamp line c = (
  stamped stamp (file_write c) line,
  if c.is_open then record c { lines = c.lines ++ (stamped_line stamp line ∷ []) } else c,
)

-- `Close` of the writer of any log.
unfoldable pub close_log : Console → Console
close_log c = record c { is_open = false }

-- The console, and the processes whose output is still copied to their log.
pub record Logs : Type 0 where
  pub console : Console
  pub copiers : List String

-- A write of a service that runs in machined, or of a controller; a call of `build` for a process; what the
-- copier of a process does with what it reads from the pipe; and the end of the function of a goroutine
-- service.
pub data Act : Type 0 where
  prints : List ℕ → List ℕ → Act
  builds : String → Files → BuildScript → Act
  copies : String → List ℕ → List ℕ → Act
  ends : GoroutineScript → Act

abbrev pub is_copied : String → List String → Bool
is_copied id [] = false
is_copied id (j ∷ js) = str_eq j id || is_copied id js

-- The copier goes on if its write succeeds, and else closes the pipe and the log.
unfoldable pub after_copy : String → Written × Console → Logs → Logs
unfolding close_log
after_copy id ((n, none), c) x = record x { console = c }
after_copy id ((n, some e), c) x = record {
  console = close_log c;
  copiers = keep (λ j. not (str_eq j id)) x.copiers;
}

-- The copier starts before the files are opened, and ends if `build` gives up on one of them.
unfoldable pub after_build : String → Built → Logs → Logs
unfolding close_log holds
after_build id b x =
    if is_some b.wrapper
    then record x { copiers = id ∷ x.copiers }
    else if holds b.closed pipe_writer
    then record x { console = close_log x.console }
    else x

unfoldable pub act : Act → Logs → Logs
unfolding write_log after_copy after_build close_log build wrapped_main
act (prints stamp line) x = record x { console = (write_log stamp line x.console).1 }
act (builds id f s) x = after_build id (build f s) x
act (copies id stamp line) x =
    if is_copied id x.copiers then after_copy id (write_log stamp line x.console) x else x
act (ends s) x = if (wrapped_main s).1 == 0 then x else record x { console = close_log x.console }

unfoldable pub run : List Act → Logs → Logs
run [] x = x
run (a ∷ acts) x = run acts (act a x)
