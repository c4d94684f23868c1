-- ===== src/Logging/Options.antt =====
-- internal/app/machined/pkg/runtime/logging.go: the options of a reader of logs.
use tailscale_os.Base.{Bool, true, Option, none, some, String}
use tailscale_os.Base.Int.{ℤ}

-- `LogOptions`; a nil pointer is `none`.
pub record LogOptions : Type 0 where
  pub follow : Bool
  pub tail_lines : Option ℤ

-- `LogOption`: an error, and the options after it.
abbrev pub LogOption : Type 0
LogOption = LogOptions → Option String × LogOptions

abbrev pub with_follow : LogOption
with_follow o = (none, record o { follow = true })

abbrev pub with_tail_lines : ℤ → LogOption
with_tail_lines lines o = (none, record o { tail_lines = some lines })
