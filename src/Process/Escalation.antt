-- ===== src/Process/Escalation.antt =====
-- What a run of a process tells the service it belongs to.
use tailscale_os.Base.{
  ◌≡◌, refl, Bool, true, false, Option, none, some, List, [], ◌∷◌, ◌++◌, String, All, All-append,
  ◌⊎◌, inl, inr,
}
use tailscale_os.History.{running, stopping}
use tailscale_os.Restart.{Recorded}
use tailscale_os.Process.{
  ProcessScript, sigterm, sigkill, Ran, announce_signal, supervise_process, run_process,
}

abbrev Stopping : Recorded → Type 0
Stopping r = r.state ≡ stopping

announce_signal-Stopping :
    (signal name : String) (o : Option String) → All Stopping (announce_signal signal name o)
unfolding announce_signal
announce_signal-Stopping signal name none = (refl, tt)
announce_signal-Stopping signal name (some e) = (refl, (refl, tt))

-- A run that was not started tells and sends nothing and has an error. A run that was started tells
-- `running` first and once, and after it `stopping` only, none without a signal; SIGKILL comes after
-- SIGTERM.
abbrev pub Silent : Ran → Type 0
Silent r =
    (r.status.started ≡ false) × (r.told ≡ []) × (r.sent ≡ []) × ((e : String) × (r.err ≡ some e))

pub record Began (r : Ran) : Type 0 where
  pub first : Recorded
  pub later : List Recorded
  pub started : r.status.started ≡ true
  pub told : r.told ≡ first ∷ later
  pub runs : first.state ≡ running
  pub stops : All Stopping later
  pub signals :
      ((r.sent ≡ []) × (later ≡ [])) ⊎ (r.sent ≡ sigterm ∷ []) ⊎ (r.sent ≡ sigterm ∷ sigkill ∷ [])

supervise_process-Began : (name : String) (s : ProcessScript) → Began (supervise_process name s)
unfolding supervise_process
supervise_process-Began name s = after s.exits_first s.exits_in_time
  where
    term : List Recorded
    term = announce_signal "SIGTERM" name s.term_err

    kill : List Recorded
    kill = announce_signal "SIGKILL" name s.kill_err

    after :
        (a b : Bool)
        → Began (supervise_process name (record s { exits_first = a; exits_in_time = b }))
    after true b = record {
      first = _;
      later = [];
      started = refl;
      told = refl;
      runs = refl;
      stops = tt;
      signals = inl (refl, refl);
    }
    after false true = record {
      first = _;
      later = term;
      started = refl;
      told = refl;
      runs = refl;
      stops = announce_signal-Stopping "SIGTERM" name s.term_err;
      signals = inr (inl refl);
    }
    after false false = record {
      first = _;
      later = term ++ kill;
      started = refl;
      told = refl;
      runs = refl;
      stops =
          All-append Stopping term kill (announce_signal-Stopping "SIGTERM" name s.term_err)
            (announce_signal-Stopping "SIGKILL" name s.kill_err);
      signals = inr (inr refl);
    }

-- Whatever the operating system and the context do, a run of a process that was not started tells and
-- sends nothing and gives an error, and one that was started tells `running` first and once and only
-- `stopping` after it, none without a signal, and sends nothing, SIGTERM, or SIGTERM and then SIGKILL.
pub run_process_orderly :
    (name : String) (s : ProcessScript) → Silent (run_process name s) ⊎ Began (run_process name s)
unfolding run_process
run_process_orderly name s = after s.args s.build_err s.start_err
  where
    after :
        (rest : List String) (b st : Option String)
        → let r : Ran =
            run_process name (record s { args = rest; build_err = b; start_err = st }) in
          Silent r ⊎ Began r
    after [] b st = inl (refl, refl, refl, (_, refl))
    after (a ∷ more) (some e) st = inl (refl, refl, refl, (_, refl))
    after (a ∷ more) none (some e) = inl (refl, refl, refl, (_, refl))
    after (a ∷ more) none none = inr (supervise_process-Began name s)
