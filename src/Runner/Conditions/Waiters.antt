-- ===== src/Runner/Conditions/Waiters.antt =====
-- A wait ends at once where its event holds, and leaves no channel behind.
use tailscale_os.Base.{
  ℕ, ◌<◌, ◌≤◌, ◌≡◌, ◌≢◌, refl, sym, ap, ◌∙◌, Bool, true, false, ◌&&◌, ◌||◌, List, [], ◌∷◌, ◌++◌,
  length, count, ◌==◌, if◌then◌else◌, arith, Bool-cases, inl, inr,
}
use tailscale_os.Chan.{length-try_send, cap-try_send, try_send_wakes}
use tailscale_os.Slice.{remove_all}
use tailscale_os.Slice.Removal.{count-remove_all}
use tailscale_os.Runner.{StateEvent, World, in_state, subscribers, subscribe, unsubscribe}
use tailscale_os.Runner.State.{same, eq_of_same, subscribers-set, in_state-set}
use tailscale_os.Runner.Conditions.{
  subscribe_all, unsubscribe_all, select_result, wait_event, settle, Waited, satisfied, cancelled,
  still_waiting,
}

abbrev pub listens : StateEvent → List StateEvent → Bool
listens ev [] = false
listens ev (e ∷ evs) = same e ev || listens ev evs

abbrev pub any_holds : List StateEvent → World → Bool
any_holds [] w = false
any_holds (e ∷ evs) w = in_state e w.runner || any_holds evs w

count-unsubscribe :
    (e ev : StateEvent) (ch c : ℕ) (w : World)
    → count c (subscribers ev (unsubscribe e ch w).runner)
      ≡ (if same e ev && ch == c then 0 else count c (subscribers ev w.runner))
unfolding unsubscribe
count-unsubscribe e ev ch c w = ground (
  arith,
  subscribers-set e ev (remove_all ch (subscribers e w.runner)) w.runner,
  count-remove_all ch (subscribers e w.runner) c,
  eq_of_same e ev,
)

count-unsubscribe_all :
    (evs : List StateEvent) (ev : StateEvent) (ch c : ℕ) (w : World)
    → count c (subscribers ev (unsubscribe_all evs ch w).runner)
      ≡ (if listens ev evs && ch == c then 0 else count c (subscribers ev w.runner))
unfolding unsubscribe_all
count-unsubscribe_all [] ev ch c w = refl
count-unsubscribe_all (e ∷ evs) ev ch c w = ground (
  arith,
  count-unsubscribe e ev ch c (unsubscribe_all evs ch w),
  count-unsubscribe_all evs ev ch c w,
)

-- Once a wait has returned, with nil or with the error of its context, its channel is on none of the
-- lists that it was put on, and every other channel is on each list as often as the other goroutines
-- left it there.
pub wait_event-leaves :
    (evs : List StateEvent) (ch : ℕ) (others : World → World) (ctx_done prefers_ctx : Bool)
    (w : World) (ev : StateEvent) (c : ℕ) (r : Waited) (w' : World)
    → wait_event evs ch others ctx_done prefers_ctx w ≡ (r, w')
    → r ≢ still_waiting
    → count c (subscribers ev w'.runner) ≡ (
        if listens ev evs && ch == c
        then 0
        else count c (subscribers ev (others (subscribe_all evs ch w)).runner))
unfolding wait_event
wait_event-leaves evs ch others ctx_done prefers_ctx w ev c r w' e over =
    left (select_result ctx_done prefers_ctx ((others (subscribe_all evs ch w)).chans ch)) e
  where
    left :
        (x : Waited)
        → settle evs ch (others (subscribe_all evs ch w)) x ≡ (r, w')
        → count c (subscribers ev w'.runner) ≡ (
            if listens ev evs && ch == c
            then 0
            else count c (subscribers ev (others (subscribe_all evs ch w)).runner))
    left satisfied q =
        rw (← ap (λ p. p.1) q) (count-unsubscribe_all evs ev ch c (others (subscribe_all evs ch w)))
    left cancelled q =
        rw (← ap (λ p. p.1) q) (count-unsubscribe_all evs ev ch c (others (subscribe_all evs ch w)))
    left still_waiting q = absurd (over (sym (ap (λ p. p.0) q)))

subscribe-keeps :
    (e : StateEvent) (ch : ℕ) (w : World)
    → (length (w.chans ch).buffer ≤ length ((subscribe e ch w).chans ch).buffer)
      × (((subscribe e ch w).chans ch).cap ≡ (w.chans ch).cap)
unfolding subscribe
subscribe-keeps e ch w =
    ground (arith, length-try_send tt (w.chans ch), cap-try_send tt (w.chans ch))

pub subscribe_holds :
    (e : StateEvent) (ch : ℕ) (w : World)
    → in_state e w.runner ≡ true
    → 0 < (w.chans ch).cap
    → 0 < length ((subscribe e ch w).chans ch).buffer
unfolding subscribe
subscribe_holds e ch w h room = ground (arith, try_send_wakes tt (w.chans ch))

in_state-subscribe :
    (e ev : StateEvent) (ch : ℕ) (w : World)
    → in_state ev (subscribe e ch w).runner ≡ in_state ev w.runner
unfolding subscribe
in_state-subscribe e ev ch w =
    ground (arith, in_state-set e ev (subscribers e w.runner ++ (ch ∷ [])) w.runner)

any_holds-subscribe :
    (evs : List StateEvent) (e : StateEvent) (ch : ℕ) (w : World)
    → any_holds evs (subscribe e ch w) ≡ any_holds evs w
any_holds-subscribe [] e ch w = refl
any_holds-subscribe (x ∷ evs) e ch w =
    ground (arith, any_holds-subscribe evs e ch w, in_state-subscribe e x ch w)

subscribe_all-keeps :
    (evs : List StateEvent) (ch : ℕ) (w : World)
    → length (w.chans ch).buffer ≤ length ((subscribe_all evs ch w).chans ch).buffer
unfolding subscribe_all
subscribe_all-keeps [] ch w = omega arith
subscribe_all-keeps (e ∷ evs) ch w =
    omega (arith, subscribe_all-keeps evs ch (subscribe e ch w), subscribe-keeps e ch w)

subscribe_all_holds :
    (evs : List StateEvent) (ch : ℕ) (w : World)
    → any_holds evs w ≡ true
    → 0 < (w.chans ch).cap
    → 0 < length ((subscribe_all evs ch w).chans ch).buffer
unfolding subscribe_all
subscribe_all_holds [] ch w h room = cc
subscribe_all_holds (e ∷ evs) ch w h room = elim (Bool-cases (in_state e w.runner)) [
  | inl holds ↦
      omega
        (arith, subscribe_all-keeps evs ch (subscribe e ch w), subscribe_holds e ch w holds room)
  | inr awaits ↦
      subscribe_all_holds evs ch (subscribe e ch w)
        (any_holds-subscribe evs e ch w ∙ rw awaits at h)
        (omega (arith, room, subscribe-keeps e ch w))
]

-- A wait for events of which one holds already returns nil, if its context is not done and nobody else
-- takes from its channel.
pub wait_event_satisfied :
    (evs : List StateEvent) (ch : ℕ) (others : World → World) (prefers_ctx : Bool) (w : World)
    → any_holds evs w ≡ true
    → 0 < (w.chans ch).cap
    → ((x : World) → length (x.chans ch).buffer ≤ length ((others x).chans ch).buffer)
    → (wait_event evs ch others false prefers_ctx w).0 ≡ satisfied
unfolding wait_event select_result
wait_event_satisfied evs ch others prefers_ctx w h room keeps =
    ground (arith, subscribe_all_holds evs ch w h room, keeps (subscribe_all evs ch w))
