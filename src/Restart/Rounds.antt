-- ===== src/Restart/Rounds.antt =====
-- When the restarts end, and with what.
use tailscale_os.Base.{
  succeeds, ◌≡◌, refl, ◌∙◌, Bool, true, false, not, ◌||◌, Option, none, some, List, [], ◌∷◌, ◌++◌,
  String, if◌then◌else◌, All, arith,
}
use tailscale_os.Restart.{
  RestartType, forever, once, until_success, RunStatus, Round, Progress, aborts, one_round,
  continue_with, run_restarting,
}

-- Whether the policy asks for another run after one with this result.
abbrev pub again : RestartType → Option String → Bool
again forever o = true
again once o = false
again until_success o = not (succeeds o)

-- A round is the last if the context is done or the policy is satisfied.
abbrev pub last_round : RestartType → Round → Bool
last_round t r = r.done_after || not (again t r.err) || r.done_waiting

-- The wrapped runner's result counts, except that an abort of the wait is not an error.
abbrev pub result_of : RestartType → Round → RunStatus × Option String
result_of t r = (r.status, if r.done_after || not (again t r.err) then r.err else none)

one_round_last :
    (name : String) (t : RestartType) (r : Round)
    → last_round t r ≡ true
    → (one_round name t r).1 ≡ some (result_of t r)
unfolding one_round aborts
one_round_last name forever r e = ground arith
one_round_last name once r e = ground arith
one_round_last name until_success r e = ground arith

one_round_more :
    (name : String) (t : RestartType) (r : Round)
    → last_round t r ≡ false
    → (one_round name t r).1 ≡ none
unfolding one_round aborts
one_round_more name forever r e = ground arith
one_round_more name once r e = ground arith
one_round_more name until_success r e = ground arith

continue_last :
    (p later : Progress) (x : RunStatus × Option String)
    → p.1 ≡ some x
    → (continue_with p later).1 ≡ some x
continue_last (told, some result) later x e = e
continue_last (told, none) later x e = cc

continue_more : (p later : Progress) → p.1 ≡ none → (continue_with p later).1 ≡ later.1
continue_more (told, some result) later e = cc
continue_more (told, none) later e = refl

-- The restarts end with the first round after which the context is done or the policy asks for no
-- other run, and with the result of that round: every round before it is followed by another one,
-- whatever comes after it is not run, and an abort while waiting gives no error.
pub run_restarting_ends :
    (name : String) (t : RestartType) (before : List Round) (r : Round) (rest : List Round)
    → All (λ q. last_round t q ≡ false) before
    → last_round t r ≡ true
    → (run_restarting name t (before ++ (r ∷ rest))).1 ≡ some (result_of t r)
unfolding run_restarting
run_restarting_ends name t [] r rest none_last e =
    continue_last (one_round name t r) (run_restarting name t rest) (result_of t r)
      (one_round_last name t r e)
run_restarting_ends name t (q ∷ qs) r rest none_last e =
    continue_more (one_round name t q) (run_restarting name t (qs ++ (r ∷ rest)))
      (one_round_more name t q none_last.0)
    ∙ run_restarting_ends name t qs r rest none_last.1 e
