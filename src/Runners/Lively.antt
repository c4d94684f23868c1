-- ===== src/Runners/Lively.antt =====
-- No runner says that its service is down.
use tailscale_os.Base.{
  ℕ, ◌≡◌, refl, ap, ◌∙◌, Bool, true, false, not, ◌&&◌, Option, none, some, List, [], ◌∷◌, String,
  All, All-append, if◌then◌else◌, arith, inl, inr,
}
use tailscale_os.History.{ServiceState, stopping, finished, failed, skipped}
use tailscale_os.Restart.{
  RestartType, forever, once, until_success, Recorded, Round, Progress, aborts, one_round,
  continue_with,
}
use tailscale_os.Process.Escalation.{run_process_orderly}
use tailscale_os.Goroutine.{run_goroutine}
use tailscale_os.Runner.{World, down, in_state, update_state, record_state, is_running}
use tailscale_os.Runner.Update.{update_state_frame}
use tailscale_os.Runner.Lifecycle.{Happening, sinks, happen, happen_all, sink, judge}
use tailscale_os.Runners.{
  Runner, process_runner, goroutine_runner, Turn, round_of, whole_round, run_over,
}

abbrev pub is_final : ServiceState → Bool
is_final finished = true
is_final failed = true
is_final skipped = true
is_final _ = false

abbrev pub Lively : Recorded → Type 0
Lively e = is_final e.state ≡ false

-- The contract of a runner.
abbrev pub Modest : Runner → Type 0
Modest r = (s : r.Script) → All Lively (r.run s).0

All-stopping : (es : List Recorded) → All (λ e. e.state ≡ stopping) es → All Lively es
All-stopping [] h = tt
All-stopping (e ∷ es) h = (ap is_final h.0, All-stopping es h.1)

-- A process keeps the contract.
pub process_runner-Modest : (name : String) → Modest (process_runner name)
process_runner-Modest name s = elim (run_process_orderly name s) [
  | inl silent ↦ rw silent.1 tt
  | inr began ↦ rw began.told (ap is_final began.runs, All-stopping began.later began.stops)
]

-- A goroutine keeps the contract.
pub goroutine_runner-Modest : Modest goroutine_runner
unfolding run_goroutine
goroutine_runner-Modest s = after s.exits_first s.exits_in_time
  where
    after :
        (a b : Bool)
        → All Lively (run_goroutine (record s { exits_first = a; exits_in_time = b })).0
    after true b = (refl, tt)
    after false true = (refl, (refl, tt))
    after false false = (refl, (refl, (refl, tt)))

one_round-Lively : (name : String) (t : RestartType) (r : Round) → All Lively (one_round name t r).0
unfolding one_round aborts
one_round-Lively name t r = after t r.done_after r.err r.done_waiting
  where
    after :
        (t : RestartType) (a : Bool) (e : Option String) (w : Bool)
        → All Lively (one_round name t (record r { done_after = a; err = e; done_waiting = w })).0
    after t true e w = tt
    after once false e w = tt
    after until_success false none w = tt
    after until_success false (some e) true = (refl, (refl, tt))
    after until_success false (some e) false = (refl, tt)
    after forever false none true = (refl, (refl, tt))
    after forever false none false = (refl, tt)
    after forever false (some e) true = (refl, (refl, tt))
    after forever false (some e) false = (refl, tt)

continue-Lively :
    (p q : Progress) → All Lively p.0 → All Lively q.0 → All Lively (continue_with p q).0
continue-Lively (told, some x) q h k = h
continue-Lively (told, none) q h k = All-append Lively told q.0 h k

-- A restarter over a runner keeps the contract, so restarters nest.
pub run_over-Lively :
    (r : Runner) (name : String) (t : RestartType) (xs : List (Turn r))
    → Modest r
    → All Lively (run_over r name t xs).0
unfolding run_over whole_round
run_over-Lively r name t [] modest = tt
run_over-Lively r name t (x ∷ xs) modest =
    continue-Lively (whole_round r name t x) (run_over r name t xs)
      (All-append Lively (r.run x.0).0 (one_round name t (round_of r x)).0 (modest x.0)
        (one_round-Lively name t (round_of r x)))
      (run_over-Lively r name t xs modest)

-- What a service takes from the sink, at some time each.
unfoldable pub told_to_sink : ℕ → List Recorded → List Happening
told_to_sink now [] = []
told_to_sink now (e ∷ es) = sinks now e.state e.message ∷ told_to_sink now es

state-sink :
    (now : ℕ) (s : ServiceState) (m : String) (w : World) → (sink now s m w).runner.state ≡ s
unfolding sink record_state
state-sink now s m w =
    judged (w.runner.is_healthchecked && not (is_running s)) (update_state now s m w)
    ∙ ap (λ r. r.state) (update_state_frame now s m w).0
  where
    judged :
        (b : Bool) (v : World)
        → (if b then judge now false "service not running" v else v).runner.state ≡ v.runner.state
    judged true v = refl
    judged false v = refl

not_down : (w : World) → is_final w.runner.state ≡ false → in_state down w.runner ≡ false
unfolding in_state
not_down w e = ground (arith, e)

all_told :
    (now : ℕ) (es : List Recorded) (w : World)
    → All Lively es
    → is_final w.runner.state ≡ false
    → is_final (happen_all (told_to_sink now es) w).runner.state ≡ false
unfolding happen_all happen told_to_sink
all_told now [] w h e = e
all_told now (x ∷ xs) w h e =
    all_told now xs (sink now x.state x.message w) h.1
      (ap is_final (state-sink now x.state x.message w) ∙ h.0)

-- If no run of a runner tells its sink a final state, and a service is in none, then however often a
-- restarter runs that runner again, and whatever the runs meet, the service is not down after it has
-- taken all that both tell the sink.
pub sink_stays_up :
    (r : Runner) (name : String) (t : RestartType) (xs : List (Turn r)) (now : ℕ) (w : World)
    → Modest r
    → is_final w.runner.state ≡ false
    → in_state down (happen_all (told_to_sink now (run_over r name t xs).0) w).runner ≡ false
sink_stays_up r name t xs now w modest e =
    not_down (happen_all (told_to_sink now (run_over r name t xs).0) w)
      (all_told now (run_over r name t xs).0 w (run_over-Lively r name t xs modest) e)
