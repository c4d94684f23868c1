-- ===== src/Services.antt =====
-- internal/app/machined/pkg/system/system.go: the services of the machine, which of them run, and the
-- goroutines that run them. A section under `mu` or `runningMu` is one step.
pub mod Exclusive
pub mod Denied
pub mod Stop
mod Tests
use tailscale_os.Base.{
  is_some, ℕ, suc, ◌+◌, ◌-◌, Bool, true, false, not, ◌&&◌, ◌||◌, Option, none, some, List, [], ◌∷◌,
  ◌++◌, String, join, str_eq, lookup, insert, delete, if◌then◌else◌,
}
use tailscale_os.Runner.{Signal, ServiceRunner, new_service_runner}

-- What the code asks a `Service` for: its identifier, and whether it is a `HealthcheckedService`.
pub record Service : Type 0 where
  pub id : String
  pub healthchecked : Bool

-- `singleton`; `wg` is the counter of the wait group. `live` are the goroutines in `Run`, and
-- `leaving` those that have returned from it, called `wg.Done`, and are not yet off the running map, and
-- `concluding` those that are off it and still set the last state of their service.
pub record Services : Type 0 where
  pub state : List (String × ServiceRunner)
  pub running : List (String × Signal)
  pub wg : ℕ
  pub deny_new_services : Bool
  pub terminating : Bool
  pub live : List String
  pub leaving : List String
  pub concluding : List String

-- `newServices`
abbrev pub new_services : Services
new_services = record {
  state = [];
  running = [];
  wg = 0;
  deny_new_services = false;
  terminating = false;
  live = [];
  leaving = [];
  concluding = [];
}

abbrev pub closed : Services → Bool
closed x = x.terminating || x.deny_new_services

-- One round of the loop of `Load`.
unfoldable pub load_one : Service → Services → Services
load_one s x =
    if is_some (lookup s.id x.state)
    then x
    else record x { state = insert s.id (new_service_runner s.id s.healthchecked true) x.state }

unfoldable pub load_all : List Service → Services → Services
load_all [] x = x
load_all (s ∷ ss) x = load_all ss (load_one s x)

abbrev pub ids : List Service → List String
ids [] = []
ids (s ∷ ss) = s.id ∷ ids ss

-- `Load`: the empty list where new services are refused.
unfoldable pub load : List Service → Services → List String × Services
load ss x = if closed x then ([], x) else (ids ss, load_all ss x)

-- One round of the loop of `Start` for a service that is loaded: its goroutine, unless one is there.
unfoldable pub launch : String → Services → Services
launch id x =
    if is_some (lookup id x.running)
    then x
    else record x { running = insert id tt x.running; wg = suc x.wg; live = id ∷ x.live }

-- The loop of `Start`; an error is told for each service that is not loaded, the last one outermost.
unfoldable pub start_all : List String → List String → Services → List String × Services
unfolding launch
start_all [] missing x = (missing, x)
start_all (id ∷ rest) missing x =
    let known : Bool = is_some (lookup id x.state) in
    start_all rest (if known then missing else id ∷ missing) (if known then launch id x else x)

-- `Start`: the identifiers in the error, if there is one.
unfoldable pub start : List String → Services → List String × Services
unfolding start_all
start names x = if closed x then ([], x) else start_all names [] x

unfoldable pub occurs : String → List String → Bool
occurs id [] = false
occurs id (j ∷ js) = str_eq id j || occurs id js

-- `stopServices` up to its lock, without the waits: who is told to stop, each once.
unfoldable pub loaded : List String → Services → List String
unfolding occurs
loaded [] x = []
loaded (id ∷ rest) x =
    let others = loaded rest x in
    if is_some (lookup id x.state) && not (occurs id others) then id ∷ others else others

abbrev pub keys_of : {V : Type 0} → List (String × V) → List String
keys_of [] = []
keys_of ((k, v) ∷ m) = k ∷ keys_of m

-- `Shutdown` and `Stop`: who is told to stop, and the new state.
unfoldable pub shutdown : Services → List String × Services
shutdown x = if x.terminating then ([], x) else (keys_of x.state, record x { terminating = true })

unfoldable pub stop : List String → Services → List String
unfolding loaded
stop names x = if x.terminating then [] else loaded names x

-- `IsRunning`; `none` is the error "service not defined".
unfoldable pub is_running : String → Services → Option Bool
is_running id x = if is_some (lookup id x.state) then some (is_some (lookup id x.running)) else none

-- `List`
unfoldable pub list : Services → List String
list x = keys_of x.state

-- `DenyNewServices`
unfoldable pub deny : Services → Services
deny x = record x { deny_new_services = true }

-- One goroutine of this name fewer.
unfoldable pub remove_one : String → List String → List String
remove_one id [] = []
remove_one id (j ∷ js) = let rest = remove_one id js in if str_eq id j then js else j ∷ rest

-- The two deferred calls at the end of a goroutine, the last one deferred first.
unfoldable pub leave : String → Services → Services
leave id x =
    if occurs id x.live
    then record x { live = remove_one id x.live; leaving = id ∷ x.leaving; wg = x.wg - 1 }
    else x

unfoldable pub forget : String → Services → Services
forget id x =
    if occurs id x.leaving
    then record x {
      leaving = remove_one id x.leaving;
      running = delete id x.running;
      concluding = id ∷ x.concluding;
    }
    else x

-- The last `UpdateState` of a goroutine is over, and with it the goroutine.
unfoldable pub end_goroutine : String → Services → Services
end_goroutine id x = record x { concluding = remove_one id x.concluding }

pub data Act : Type 0 where
  loads : List Service → Act
  starts : List String → Act
  leaves forgets concludes : String → Act
  denies shuts_down : Act

unfoldable pub act : Act → Services → Services
act (loads ss) x = (load ss x).1
act (starts names) x = (start names x).1
act (leaves id) x = leave id x
act (forgets id) x = forget id x
act (concludes id) x = end_goroutine id x
act denies x = deny x
act shuts_down x = (shutdown x).1

unfoldable pub run : List Act → Services → Services
run [] x = x
run (a ∷ acts) x = run acts (act a x)
