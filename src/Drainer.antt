-- ===== src/Drainer.antt =====
-- internal/app/machined/pkg/runtime/drainer.go: the drainer, its subscriptions, and the goroutine that
-- drains. A section under `subscriptionsMu` is one step. The signal of `Cancel` is sent after the lock
-- is given up, so it is a step of its own.
pub mod Progress
mod Tests
use tailscale_os.Base.{
  ℕ, suc, ◌+◌, ◌-◌, Bool, true, false, Option, none, some, List, [], ◌∷◌, ◌++◌, length, ltb, ◌==◌,
  if◌then◌else◌,
}
use tailscale_os.Chan.{Chan, Store, make, update, try_send, send_all}
use tailscale_os.Runner.{Signal}

-- A subscription is its number. `next` is the number of the next one, and `events` has the channel of
-- each.
pub record Drainer : Type 0 where
  pub draining : Bool
  pub subscriptions : List ℕ
  pub shutdown : Chan Signal
  pub events : Store Signal
  pub next : ℕ

-- `NewDrainer`
abbrev pub new_drainer : Drainer
new_drainer = record {
  draining = false;
  subscriptions = [];
  shutdown = make 1;
  events = λ _. make 1;
  next = 0;
}

-- The first section of `Drain`; `none` is the error "already draining".
unfoldable pub begin_drain : Drainer → Option Drainer
begin_drain d =
    if d.draining
    then none
    else some (record d { draining = true; events = send_all tt d.subscriptions d.events })

-- `Subscribe`: a fresh channel, which has the event at once if the drainer drains already.
unfoldable pub subscribe : Drainer → Drainer
subscribe d =
    let fresh : Chan Signal = if d.draining then try_send tt (make 1) else make 1 in
    record d {
      subscriptions = d.subscriptions ++ (d.next ∷ []);
      events = update d.events d.next fresh;
      next = suc d.next;
    }

-- `slices.Delete(s, i, i+1)` at the first match.
unfoldable pub delete_first : ℕ → List ℕ → List ℕ
delete_first a [] = []
delete_first a (x ∷ xs) = let rest = delete_first a xs in if a == x then xs else x ∷ rest

-- `Cancel` up to the end of its lock, and its signal.
unfoldable pub cancel : ℕ → Drainer → Drainer
cancel a d = record d { subscriptions = delete_first a d.subscriptions }

unfoldable pub signal : Drainer → Drainer
signal d = record d { shutdown = try_send tt d.shutdown }

-- Where the call of `Drain` is: not made, about to look at the subscriptions, in its `select`, or
-- returned, with nil or with the error of the context.
pub data Phase : Type 0 where
  idle looking blocked drained expired : Phase

-- `cancels` counts the calls of `Cancel` between their lock and their signal.
pub record Draining : Type 0 where
  pub drainer : Drainer
  pub phase : Phase
  pub cancels : ℕ

pub data Act : Type 0 where
  drains looks receives expires subscribes signals : Act
  cancels_one : ℕ → Act

abbrev pub begin_looking : Option Drainer → Draining → Draining
begin_looking none x = x
begin_looking (some d) x = record x { drainer = d; phase = looking }

-- The test of the loop.
abbrev pub look : List ℕ → Phase → Phase
look [] looking = drained
look (_ ∷ _) looking = blocked
look _ p = p

-- The two cases of the `select`: the receive waits while the channel is empty.
abbrev pub receive_shutdown : Phase → List Signal → Draining → Draining
receive_shutdown blocked (_ ∷ rest) x = record x {
  drainer = record (x.drainer) { shutdown = record (x.drainer.shutdown) { buffer = rest } };
  phase = looking;
}
receive_shutdown _ _ x = x

abbrev pub expire : Phase → Phase
expire blocked = expired
expire p = p

-- A step that is not possible in its phase changes nothing.
unfoldable pub act : Act → Draining → Draining
act drains x = begin_looking (begin_drain x.drainer) x
act looks x = record x { phase = look x.drainer.subscriptions x.phase }
act receives x = receive_shutdown x.phase x.drainer.shutdown.buffer x
act expires x = record x { phase = expire x.phase }
act subscribes x = record x { drainer = subscribe x.drainer }
act (cancels_one a) x = record x { drainer = cancel a x.drainer; cancels = suc x.cancels }
act signals x =
    if ltb 0 x.cancels then record x { drainer = signal x.drainer; cancels = x.cancels - 1 } else x

unfoldable pub run : List Act → Draining → Draining
run [] x = x
run (a ∷ acts) x = run acts (act a x)

abbrev pub fresh_start : Draining
fresh_start = record { drainer = new_drainer; phase = idle; cancels = 0 }
