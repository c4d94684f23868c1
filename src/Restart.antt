-- ===== src/Restart.antt =====
-- internal/app/machined/pkg/system/runner/restart/restart.go: the runner that runs another one again.
-- What the wrapped runner and the context do is a list of rounds.
pub mod Rounds
mod Tests
use tailscale_os.Base.{
  Bool, true, false, not, ◌&&◌, ◌||◌, Option, none, some, List, [], ◌∷◌, ◌++◌, String, join,
  if◌then◌else◌,
}
use tailscale_os.Base.Int.{ℤ}
use tailscale_os.History.{ServiceState, waiting, stopping}

-- `Type`
pub data RestartType : Type 0 where
  forever once until_success : RestartType

-- `Type.String`
unfoldable pub type_string : RestartType → String
type_string forever = "Forever"
type_string once = "Once"
type_string until_success = "UntilSuccess"

-- `runner.Status`
pub record RunStatus : Type 0 where
  pub started : Bool
  pub exit_code : ℤ

-- What a runner tells its event sink.
pub record Recorded : Type 0 where
  pub state : ServiceState
  pub message : String

-- A run of the wrapped runner: its result, whether the context is done when it has returned, and
-- whether the context ends before the restart interval does.
pub record Round : Type 0 where
  pub status : RunStatus
  pub err : Option String
  pub done_after : Bool
  pub done_waiting : Bool

-- What `Run` has told its sink, and its result, if it has returned.
abbrev pub Progress : Type 0
Progress = List Recorded × Option (RunStatus × Option String)

unfoldable pub aborts : Round → List Recorded → Progress
aborts r told =
    if r.done_waiting
    then (
      told ++ (record { state = stopping; message = "Aborting restart sequence" } ∷ []),
      some (r.status, none),
    )
    else (told, none)

-- One round of the loop; `name` is the text of the wrapped runner.
unfoldable pub one_round : String → RestartType → Round → Progress
unfolding aborts
one_round name t r = if r.done_after then ([], some (r.status, r.err)) else elim t [
  | once ↦ ([], some (r.status, r.err))
  | until_success ↦ elim (r.err) [
    | none ↦ ([], some (r.status, none))
    | some e ↦ aborts r (
        record {
          state = waiting;
          message =
              join (join (join "Error running " name) ", going to restart until it succeeds: ") e;
        }
        ∷ [])
  ]
  | forever ↦ elim (r.err) [
    | none ↦ aborts r (
        record {
          state = waiting;
          message = join (join "Runner " name) " exited without error, going to restart it";
        }
        ∷ [])
    | some e ↦ aborts r (
        record {
          state = waiting;
          message = join (join (join "Error running " name) ", going to restart forever: ") e;
        }
        ∷ [])
  ]
]

-- After a round that did not return, the rounds that follow.
abbrev pub continue_with : Progress → Progress → Progress
continue_with (told, some result) later = (told, some result)
continue_with (told, none) later = (told ++ later.0, later.1)

-- `Run`. When the list is over, the wrapped runner still runs.
unfoldable pub run_restarting : String → RestartType → List Round → Progress
unfolding one_round
run_restarting name t [] = ([], none)
run_restarting name t (r ∷ rs) = continue_with (one_round name t r) (run_restarting name t rs)
