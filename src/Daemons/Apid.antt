-- ===== src/Daemons/Apid.antt =====
-- internal/app/machined/pkg/system/services/apid.go: the health check of apid, and `runAPID`, which serves
-- until its context is done. The network and the server of package grpc are a script.
use tailscale_os.Base.{
  ◌≡◌, refl, succeeds, Bool, true, false, not, ◌&&◌, ◌||◌, Option, none, some, List, [], ◌∷◌,
  String, if◌then◌else◌,
}

-- The function that `HealthFunc` returns, with the errors of its two calls.
unfoldable pub apid_check : Option String → Option String → Option String
apid_check (some e) close_err = some e
apid_check none close_err = close_err

-- The error of `Listen`; that of `Serve`, if it ends before it is told to; whether the context of the
-- service is done, whether `GracefulStop` returns, and the error of closing the listener.
pub record ApidScript : Type 0 where
  pub listen_err : Option String
  pub serve_err : Option String
  pub asked : Bool
  pub drains : Bool
  pub close_err : Option String

pub data Call : Type 0 where
  listens serves stops closes : Call

-- `runAPID` serves, waits for the calls that the server still answers, or has returned.
pub data Progress : Type 0 where
  serving draining : Progress
  returned : Option String → Progress

-- The second goroutine of the group, once the context of the group is done. `Serve` gives nil when it
-- is told to stop, and the group gives the first error.
unfoldable pub stop_serving : Bool → Option String → Option String → List Call × Progress
stop_serving false first close_err = (stops ∷ [], draining)
stop_serving true (some e) close_err = (stops ∷ closes ∷ [], returned (some e))
stop_serving true none close_err = (stops ∷ closes ∷ [], returned close_err)

abbrev after_listening : List Call × Progress → List Call × Progress
after_listening (cs, p) = (listens ∷ serves ∷ cs, p)

-- The group: an error of `Serve` ends its context, as the end of that of the service does.
unfoldable pub serve_group : ApidScript → List Call × Progress
unfolding stop_serving
serve_group s = elim (s.serve_err) [
  | some e ↦ stop_serving s.drains (some e) s.close_err
  | none ↦ if s.asked then stop_serving s.drains none s.close_err else ([], serving)
]

unfoldable pub run_apid : ApidScript → List Call × Progress
unfolding serve_group
run_apid s = elim (s.listen_err) [
  | some e ↦ (listens ∷ [], returned (some e))
  | none ↦ after_listening (serve_group s)
]

abbrev pub is_closed : List Call → Bool
is_closed [] = false
is_closed (closes ∷ cs) = true
is_closed (_ ∷ cs) = is_closed cs

abbrev pub has_served : List Call → Bool
has_served [] = false
has_served (serves ∷ cs) = true
has_served (_ ∷ cs) = has_served cs

abbrev pub is_over : Progress → Bool
is_over (returned e) = true
is_over _ = false

-- Whenever `runAPID` has returned after it began to serve, it has closed its listener; and it returns
-- exactly if it could not listen, or the server failed or it was told to stop, and the server then came to
-- its end.
pub run_apid_closes :
    (s : ApidScript)
    → let r = run_apid s in
      ((not (is_over r.1 && has_served r.0) || is_closed r.0) ≡ true)
      × (is_over r.1
          ≡ (not (succeeds s.listen_err) || ((not (succeeds s.serve_err) || s.asked) && s.drains)))
unfolding run_apid serve_group stop_serving
run_apid_closes s = after s.listen_err s.serve_err s.asked s.drains
  where
    after :
        (l v : Option String) (a d : Bool)
        → let t : ApidScript = record s { listen_err = l; serve_err = v; asked = a; drains = d } in
          ((not (is_over (run_apid t).1 && has_served (run_apid t).0) || is_closed (run_apid t).0)
            ≡ true)
          × (is_over (run_apid t).1 ≡ (not (succeeds l) || ((not (succeeds v) || a) && d)))
    after (some e) v a d = (refl, refl)
    after none (some e) a true = (refl, refl)
    after none (some e) a false = (refl, refl)
    after none none true true = (refl, refl)
    after none none true false = (refl, refl)
    after none none false true = (refl, refl)
    after none none false false = (refl, refl)
