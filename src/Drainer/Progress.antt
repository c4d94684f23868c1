-- ===== src/Drainer/Progress.antt =====
-- The drainer does not sleep past the last cancellation.
use tailscale_os.Base.{
  ℕ, ◌+◌, ◌<◌, ◌≡◌, refl, ap, Option, none, some, List, [], ◌∷◌, length, length-append, ltb, arith,
  Bool-cases, inl, inr,
}
use tailscale_os.Chan.{try_send_wakes, cap-try_send}
use tailscale_os.Runner.{Signal}
use tailscale_os.Drainer.{
  Drainer, Draining, Phase, idle, looking, blocked, drained, expired, Act, drains, looks, receives,
  expires, subscribes, signals, cancels_one, act, run, begin_drain, subscribe, cancel, signal, look,
  expire, begin_looking, receive_shutdown, fresh_start,
}

-- A drainer in its `select` with no subscription left has a signal, or one is under way.
record Awake (x : Draining) : Type 0 where
  room : 0 < x.drainer.shutdown.cap
  awake :
      x.phase ≡ blocked
      → x.drainer.subscriptions ≡ []
      → 0 < x.cancels + length x.drainer.shutdown.buffer

begun : (d d' : Drainer) → begin_drain d ≡ some d' → d'.shutdown ≡ d.shutdown
unfolding begin_drain
begun d d' e = ground arith

look-blocked : (subs : List ℕ) (p : Phase) → look subs p ≡ blocked → subs ≡ [] → p ≡ blocked
look-blocked [] looking b n = cc
look-blocked (s ∷ ss) looking b n = cc
look-blocked [] idle b n = b
look-blocked (s ∷ ss) idle b n = b
look-blocked [] blocked b n = b
look-blocked (s ∷ ss) blocked b n = b
look-blocked [] drained b n = b
look-blocked (s ∷ ss) drained b n = b
look-blocked [] expired b n = b
look-blocked (s ∷ ss) expired b n = b

expire-blocked : (p : Phase) → expire p ≡ blocked → p ≡ blocked
expire-blocked looking b = b
expire-blocked idle b = b
expire-blocked blocked b = cc
expire-blocked drained b = b
expire-blocked expired b = b

receive-Awake :
    (p : Phase) (buffer : List Signal) (x : Draining)
    → Awake x
    → Awake (receive_shutdown p buffer x)
receive-Awake blocked [] x v = v
receive-Awake blocked (t ∷ ts) x v = record { room = v.room; awake = λ b n. cc }
receive-Awake looking buffer x v = v
receive-Awake idle buffer x v = v
receive-Awake drained buffer x v = v
receive-Awake expired buffer x v = v

begin-Awake :
    (o : Option Drainer) (x : Draining)
    → Awake x
    → ((d : Drainer) → o ≡ some d → d.shutdown ≡ x.drainer.shutdown)
    → Awake (begin_looking o x)
begin-Awake none x v same = v
begin-Awake (some d) x v same = record { room = rw (same d refl) v.room; awake = λ b n. cc }

act-Awake : (a : Act) (x : Draining) → Awake x → Awake (act a x)
unfolding act subscribe cancel signal
act-Awake drains x v = begin-Awake (begin_drain x.drainer) x v (λ d e. begun x.drainer d e)
act-Awake looks x v = record {
  room = v.room;
  awake = λ b n. v.awake (look-blocked x.drainer.subscriptions x.phase b n) n;
}
act-Awake receives x v = receive-Awake x.phase x.drainer.shutdown.buffer x v
act-Awake expires x v = record {
  room = v.room;
  awake = λ b n. v.awake (expire-blocked x.phase b) n;
}
act-Awake subscribes x v = record {
  room = v.room;
  awake = λ b n.
      absurd
        (omega (arith, length-append x.drainer.subscriptions (x.drainer.next ∷ []), ap length n));
}
act-Awake (cancels_one a) x v = record { room = v.room; awake = λ b n. omega arith }
act-Awake signals x v = elim (Bool-cases (ltb 0 x.cancels)) [
  | inr none_left ↦ rw (none_left, act) v
  | inl some_left ↦
      rw (some_left, act)
        (record {
          room = omega (arith, v.room, cap-try_send tt x.drainer.shutdown);
          awake = λ b n. omega (arith, try_send_wakes tt x.drainer.shutdown v.room);
        })
]

run-Awake : (acts : List Act) (x : Draining) → Awake x → Awake (run acts x)
unfolding run
run-Awake [] x v = v
run-Awake (a ∷ acts) x v = run-Awake acts (act a x) (act-Awake a x v)

-- A drain does not sleep past its last subscription: after any steps of any goroutines from a new
-- drainer, if `Drain` waits in its `select`, no subscription is left and no `Cancel` is between its lock
-- and its signal, then a signal is there, and with it `Drain` returns nil.
pub drain_returns :
    (acts : List Act)
    → (run acts fresh_start).phase ≡ blocked
    → (run acts fresh_start).drainer.subscriptions ≡ []
    → (run acts fresh_start).cancels ≡ 0
    → (act looks (act receives (run acts fresh_start))).phase ≡ drained
unfolding act
drain_returns acts b n settled = woken (run acts fresh_start) b n (
    omega (
      arith,
      settled,
      (run-Awake acts fresh_start (record { room = omega arith; awake = λ b n. cc })).awake b n,
    ))
  where
    received :
        (p : Phase) (buffer : List Signal) (x : Draining)
        → p ≡ blocked
        → x.drainer.subscriptions ≡ []
        → 0 < length buffer
        → look
            (receive_shutdown p buffer x).drainer.subscriptions
            (receive_shutdown p buffer x).phase
          ≡ drained
    received blocked (t ∷ ts) x b n l = rw n refl
    received blocked [] x b n l = absurd (omega arith)
    received idle buffer x b n l = cc
    received looking buffer x b n l = cc
    received drained buffer x b n l = cc
    received expired buffer x b n l = cc

    woken :
        (x : Draining)
        → x.phase ≡ blocked
        → x.drainer.subscriptions ≡ []
        → 0 < length x.drainer.shutdown.buffer
        → (act looks (act receives x)).phase ≡ drained
    woken x b n l = received x.phase x.drainer.shutdown.buffer x b n l
