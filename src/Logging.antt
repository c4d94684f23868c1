-- ===== src/Logging.antt =====
-- internal/app/machined/pkg/logging/zap.go and pkg/runtime/logging: the writers of logs, and the loggers
-- that are made from destinations. A writer of another package is what it answers to a write.
pub mod Contract
pub mod Console
pub mod Silent
pub mod Destinations
pub mod Options
mod Tests
use tailscale_os.Base.{
  ℕ, ◌==◌, Bool, true, false, Option, none, some, List, [], ◌∷◌, ◌++◌, String, join, length,
  if◌then◌else◌,
}

-- `io.Writer`: of a line of bytes, how many it has written, and its error.
abbrev pub Written : Type 0
Written = ℕ × Option String

abbrev pub Writer : Type 0
Writer = List ℕ → Written

-- The buffer of `timeStampWriter.Write`; the stamp is the text that package time gives.
abbrev pub stamped_line : List ℕ → List ℕ → List ℕ
stamped_line stamp p = stamp ++ (32 ∷ p)

abbrev pub report : ℕ → ℕ → Written → Written
report len_p len_buf (n, none) =
    if n == len_buf then (len_p, none) else (n, some "time stamp writer error: short write")
report len_p len_buf (n, some e) = (n, some (join "time stamp writer internal error: " e))

-- `timeStampWriter.Write` of simple.go
unfoldable pub stamped : List ℕ → Writer → Writer
stamped stamp w p = report (length p) (length (stamped_line stamp p)) (w (stamped_line stamp p))

-- `LogWriter.Write` of zap.go, with what it logs; `enabled` says whether `Check` gives an entry, and
-- `trim` is `strings.TrimSpace`.
unfoldable pub log_line : Bool → (List ℕ → List ℕ) → List ℕ → List (List ℕ) × Written
log_line enabled trim line =
    if enabled then (trim line ∷ [], (length line, none)) else ([], (0, none))

-- `logWrapper.Write`: whether it prints by a logger of its own, what it prints, and its result.
unfoldable pub print_line : {L : Type 0} → Option L → List ℕ → (Option L × List ℕ) × Written
print_line logger line = ((logger, line), (length line, none))
