-- ===== src/Process/Build.antt =====
-- internal/app/machined/pkg/system/runner/process/process.go: `build`, which opens what a process reads
-- and writes.
use tailscale_os.Base.{
  ℕ, ◌==◌, ◌≡◌, refl, Bool, false, ◌||◌, Option, none, some, List, [], ◌∷◌, String, join, str_eq,
  ◌++◌, arith, if◌then◌else◌,
}

-- Both ends of the pipe, the writer of the log, and the files that the options name.
pub data Descriptor : Type 0 where
  pipe_writer pipe_reader log_sink stdin_file stdout_file stderr_file : Descriptor

-- The files that the options name, with "" for none, and the errors of the calls.
pub record Files : Type 0 where
  pub stdin : String
  pub stdout : String
  pub stderr : String

pub record BuildScript : Type 0 where
  pub sink_err : Option String
  pub stdin_err : Option String
  pub stdout_err : Option String
  pub stderr_err : Option String

pub record CommandWrapper : Type 0 where
  pub stdin : Option Descriptor
  pub stdout : Descriptor
  pub stderr : Descriptor

-- The result of `build`, what the goroutine holds that copies the log, what else was opened, the last first,
-- `afterStartClosers`, and what `build` itself has closed.
pub record Built : Type 0 where
  pub wrapper : Option CommandWrapper
  pub err : Option String
  pub copier : List Descriptor
  pub opened : List Descriptor
  pub closers : List Descriptor
  pub closed : List Descriptor

abbrev copying : List Descriptor
copying = log_sink ∷ pipe_reader ∷ []

-- A return with an error once the pipe is open: the deferred call closes all closers.
abbrev gives_up : List Descriptor → List Descriptor → String → Built
gives_up opened closers e = record {
  wrapper = none;
  err = some e;
  copier = copying;
  opened = opened;
  closers = closers;
  closed = closers;
}

-- Opens a file, and goes on with it or gives up.
abbrev open_file : Option String → List Descriptor → List Descriptor → Built → Built
open_file none opened closers b = b
open_file (some e) opened closers b = gives_up opened closers e

abbrev builds :
    Option Descriptor → Descriptor → Descriptor → List Descriptor → List Descriptor → Built
builds i o e opened closers = record {
  wrapper = some (record { stdin = i; stdout = o; stderr = e });
  err = none;
  copier = copying;
  opened = opened;
  closers = closers;
  closed = [];
}

-- The three options, in the order of the code, with what is open and the closers, the last first.
unfoldable pub open_stderr :
    Files → BuildScript → Option Descriptor → Descriptor → List Descriptor → List Descriptor → Built
open_stderr f s i o opened closers =
    if str_eq f.stderr ""
    then builds i o pipe_writer opened closers
    else open_file s.stderr_err opened closers
        (builds i o stderr_file (stderr_file ∷ opened) (stderr_file ∷ closers))

unfoldable pub open_stdout :
    Files → BuildScript → Option Descriptor → List Descriptor → List Descriptor → Built
unfolding open_stderr
open_stdout f s i opened closers =
    if str_eq f.stdout ""
    then open_stderr f s i pipe_writer opened closers
    else open_file s.stdout_err opened closers
        (open_stderr f s i stdout_file (stdout_file ∷ opened) (stdout_file ∷ closers))

unfoldable pub open_stdin : Files → BuildScript → List Descriptor → List Descriptor → Built
unfolding open_stdout
open_stdin f s opened closers =
    if str_eq f.stdin ""
    then open_stdout f s none opened closers
    else open_file s.stdin_err opened closers
        (open_stdout f s (some stdin_file) (stdin_file ∷ opened) (stdin_file ∷ closers))

-- `build`. The error of `os.Pipe` is dropped by the code, and the pipe is there.
unfoldable pub build : Files → BuildScript → Built
unfolding open_stdin
build f s = elim (s.sink_err) [
  | some e ↦ record {
    wrapper = none;
    err = some (join "service log handler: " e);
    copier = [];
    opened = [];
    closers = [];
    closed = [];
  }
  | none ↦ open_stdin f s (pipe_writer ∷ []) (pipe_writer ∷ [])
]

abbrev code : Descriptor → ℕ
code pipe_writer = 0
code pipe_reader = 1
code log_sink = 2
code stdin_file = 3
code stdout_file = 4
code stderr_file = 5

unfoldable pub holds : List Descriptor → Descriptor → Bool
holds [] d = false
holds (c ∷ cs) d = code c == code d || holds cs d

-- Those of the first list that are not on the second.
unfoldable pub without : List Descriptor → List Descriptor → List Descriptor
unfolding holds
without [] closed = []
without (d ∷ ds) closed = let rest = without ds closed in if holds closed d then rest else d ∷ rest

-- The copy of the log ends with the last writer of the pipe, and then closes what it holds.
abbrev copier_left : Built → List Descriptor
copier_left b = if holds b.closed pipe_writer then [] else b.copier

-- What stands open in machined once the process that got the wrapper, if there is one, is over: `Run`
-- closes nothing.
unfoldable pub left_open : Built → List Descriptor
unfolding without
left_open b = copier_left b ++ without b.opened b.closed

abbrev pub named : String → Descriptor → List Descriptor
named f d = if str_eq f "" then [] else d ∷ []

-- The descriptors that a build which ends with this error may keep.
abbrev pub kept : Files → Option String → List Descriptor
kept f none =
    log_sink ∷ pipe_reader ∷ named f.stderr stderr_file
    ++ (named f.stdout stdout_file ++ (named f.stdin stdin_file ++ (pipe_writer ∷ [])))
kept f (some e) = []

build-cases :
    (f : Files) (w i o e : Option String)
    → let b = build f (record { sink_err = w; stdin_err = i; stdout_err = o; stderr_err = e }) in
      left_open b ≡ kept f b.err
unfolding left_open without holds build open_stdin open_stdout open_stderr
build-cases f (some x) i o e = refl
build-cases f none none none none = ground arith
build-cases f none none none (some z) = ground arith
build-cases f none none (some y) none = ground arith
build-cases f none none (some y) (some z) = ground arith
build-cases f none (some x) none none = ground arith
build-cases f none (some x) none (some z) = ground arith
build-cases f none (some x) (some y) none = ground arith
build-cases f none (some x) (some y) (some z) = ground arith

-- If `build` returns an error, everything that it opened is closed, whichever call failed. If it
-- succeeds, the writer of the log, both ends of the pipe and each file that the options name stay open in
-- machined after the process, and nothing else.
pub build-left_open : (f : Files) (s : BuildScript) → left_open (build f s) ≡ kept f (build f s).err
build-left_open f s = build-cases f s.sink_err s.stdin_err s.stdout_err s.stderr_err
