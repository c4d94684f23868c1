-- ===== src/Services/Exclusive.antt =====
-- One goroutine at most runs a service, until it takes the service off the running map.
use tailscale_os.Base.{
  is_some, ℕ, suc, ◌+◌, ◌≡◌, refl, Bool, true, false, List, [], ◌∷◌, String, str_eq, eq_iff, lookup,
  insert, lookup-insert, lookup-delete, if◌then◌else◌, arith, Bool-cases, inl, inr, length,
}
use tailscale_os.Runner.{new_service_runner}
use tailscale_os.Services.{
  Service, Services, new_services, closed, ids, keys_of, load_one, load_all, load, launch,
  start_all, start, shutdown, deny, remove_one, occurs, leave, forget, Act, loads, starts, leaves,
  forgets, concludes, end_goroutine, denies, shuts_down, act, run,
}

-- How many goroutines of this name there are.
unfoldable pub number : String → List String → ℕ
number id [] = 0
number id (j ∷ js) = let rest = number id js in if str_eq id j then suc rest else rest

abbrev pub one_if : Bool → ℕ
one_if true = 1
one_if false = 0

number-remove_one :
    (id j : String) (js : List String)
    → occurs id js ≡ true
    → number j (remove_one id js) + one_if (str_eq id j) ≡ number j js
unfolding number remove_one occurs
number-remove_one id j [] e = cc
number-remove_one id j (k ∷ ks) e =
    ground (arith, number-remove_one id j ks, eq_iff id k, eq_iff id j, eq_iff j k)

length-remove_one :
    (id : String) (js : List String)
    → occurs id js ≡ true
    → suc (length (remove_one id js)) ≡ length js
unfolding remove_one occurs
length-remove_one id [] e = cc
length-remove_one id (k ∷ ks) e = ground (arith, length-remove_one id ks)

-- The running map has the services of the goroutines that are there, which are one for each, and the
-- wait group counts those in `Run`.
pub record Exclusive (x : Services) : Type 0 where
  pub one_each :
      (id : String)
      → number id x.live + number id x.leaving ≡ one_if (is_some (lookup id x.running))
  pub counted : x.wg ≡ length x.live

launch-Exclusive : (id : String) (x : Services) → Exclusive x → Exclusive (launch id x)
unfolding launch number
launch-Exclusive id x v = elim (Bool-cases (is_some (lookup id x.running))) [
  | inl there ↦ rw (there, launch) v
  | inr free ↦
      rw (free, launch)
        (record {
          one_each = λ j. ground (
            arith,
            v.one_each j,
            lookup-insert id j tt x.running,
            eq_iff j id,
            eq_iff id j,
            free,
          );
          counted = omega (arith, v.counted);
        })
]

either :
    (b : Bool) (p q : List String × Services)
    → Exclusive p.1
    → Exclusive q.1
    → Exclusive (if b then p else q).1
either true p q v u = v
either false p q v u = u

start_all-Exclusive :
    (names missing : List String) (x : Services)
    → Exclusive x
    → Exclusive (start_all names missing x).1
unfolding start_all
start_all-Exclusive [] missing x v = v
start_all-Exclusive (id ∷ rest) missing x v =
    start_all-Exclusive rest (if is_some (lookup id x.state) then missing else id ∷ missing)
      (if is_some (lookup id x.state) then launch id x else x) (after (is_some (lookup id x.state)))
  where
    after : (b : Bool) → Exclusive (if b then launch id x else x)
    after true = launch-Exclusive id x v
    after false = v

load_all-Exclusive : (ss : List Service) (x : Services) → Exclusive x → Exclusive (load_all ss x)
unfolding load_all load_one
load_all-Exclusive [] x v = v
load_all-Exclusive (s ∷ ss) x v =
    load_all-Exclusive ss (load_one s x) (after (is_some (lookup s.id x.state)))
  where
    grown : Services
    grown = record x { state = insert s.id (new_service_runner s.id s.healthchecked true) x.state }

    after : (b : Bool) → Exclusive (if b then x else grown)
    after true = v
    after false = record { one_each = v.one_each; counted = v.counted }

leave-Exclusive : (id : String) (x : Services) → Exclusive x → Exclusive (leave id x)
unfolding leave number
leave-Exclusive id x v = elim (Bool-cases (occurs id x.live)) [
  | inr absent ↦ rw (absent, leave) v
  | inl there ↦
      rw (there, leave)
        (record {
          one_each = λ j.
              ground (
                arith,
                v.one_each j,
                number-remove_one id j x.live there,
                eq_iff j id,
                eq_iff id j,
              );
          counted = omega (arith, v.counted, length-remove_one id x.live there);
        })
]

forget-Exclusive : (id : String) (x : Services) → Exclusive x → Exclusive (forget id x)
unfolding forget number
forget-Exclusive id x v = elim (Bool-cases (occurs id x.leaving)) [
  | inr absent ↦ rw (absent, forget) v
  | inl there ↦
      rw (there, forget)
        (record {
          one_each = λ j. ground (
            arith,
            v.one_each j,
            number-remove_one id j x.leaving there,
            lookup-delete id j x.running,
            eq_iff j id,
            eq_iff id j,
          );
          counted = v.counted;
        })
]

act-Exclusive : (a : Act) (x : Services) → Exclusive x → Exclusive (act a x)
unfolding act load start shutdown deny end_goroutine
act-Exclusive (loads ss) x v =
    either (closed x) ([], x) (ids ss, load_all ss x) v (load_all-Exclusive ss x v)
act-Exclusive (starts names) x v =
    either (closed x) ([], x) (start_all names [] x) v (start_all-Exclusive names [] x v)
act-Exclusive (leaves id) x v = leave-Exclusive id x v
act-Exclusive (forgets id) x v = forget-Exclusive id x v
act-Exclusive (concludes id) x v = record { one_each = v.one_each; counted = v.counted }
act-Exclusive denies x v = record { one_each = v.one_each; counted = v.counted }
act-Exclusive shuts_down x v =
    either x.terminating ([], x) (keys_of x.state, record x { terminating = true }) v
      (record { one_each = v.one_each; counted = v.counted })

run-Exclusive : (acts : List Act) (x : Services) → Exclusive x → Exclusive (run acts x)
unfolding run
run-Exclusive [] x v = v
run-Exclusive (a ∷ acts) x v = run-Exclusive acts (act a x) (act-Exclusive a x v)

-- Whatever is loaded, started, stopped and denied in whatever order, and whenever the goroutines end: a
-- service has at most one goroutine that has not yet taken it off the running map, it has one exactly if it
-- is in that map, and the wait group counts the goroutines in `Run`. A goroutine that has taken its service
-- off and still sets the last state is not among them: another one may have been started by then.
pub run_exclusive :
    (acts : List Act) (id : String)
    → let x = run acts new_services in
      (number id x.live + number id x.leaving ≡ one_if (is_some (lookup id x.running)))
      × (x.wg ≡ length x.live)
unfolding number lookup
run_exclusive acts id =
    let v = run-Exclusive acts new_services start_empty in (v.one_each id, v.counted)
  where
    start_empty : Exclusive new_services
    start_empty = record { one_each = λ j. refl; counted = refl }
