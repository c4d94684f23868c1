-- ===== src/Stream/Progress.antt =====
-- A consumer that is not overrun reaches the end of the log in as many rounds as there are entries.
use mathlib.Core.List.{append-nil}
use tailscale_os.Base.{
  ℕ, zero, suc, ◌+◌, ◌-◌, ◌<◌, ◌≡◌, refl, ap, true, List, [], String, keep, replicate, arith,
}
use tailscale_os.Stream.{Event, Events, consume}
use tailscale_os.Stream.Ring.{Holds}
use tailscale_os.Stream.Consumer.{
  turns, Watch, wanted, step, run, apply_turn, segment, sent_events, published, run_delivers,
}

module _ {Xid : Type 0} (d : Event Xid) (actor : String) where
  turn_moves :
      (w : Watch Xid)
      → w.is_open ≡ true
      → w.at < w.events.write_pos
      → w.events.write_pos - w.at < w.events.cap
      → ((step d actor w turns).at ≡ w.at + 1)
        × ((step d actor w turns).is_open ≡ true)
        × ((step d actor w turns).events ≡ w.events)
  unfolding step apply_turn consume
  turn_moves w o lt near = ground arith

  turns_reach :
      (k : ℕ) (w : Watch Xid)
      → w.is_open ≡ true
      → w.at + k ≡ w.events.write_pos
      → k < w.events.cap
      → ((run d actor w (replicate k turns)).at ≡ w.at + k)
        × ((run d actor w (replicate k turns)).is_open ≡ true)
  unfolding run
  turns_reach zero w o e near = (omega arith, o)
  turns_reach (suc k) w o e near =
      let m = turn_moves w o (omega arith) (omega arith) in
      let r =
        turns_reach k (step d actor w turns) m.1 (omega (arith, m.0, ap (λ v. v.write_pos) m.2))
          (omega (arith, ap (λ v. v.cap) m.2)) in
      (omega (arith, r.0, m.0), r.1)

  no_publish : (k : ℕ) → published {Xid = Xid} (replicate k turns) ≡ []
  no_publish zero = refl
  no_publish (suc k) = no_publish k

  -- If the publisher rests, a consumer that is fewer than `cap` entries behind has sent all of them that
  -- are wanted, in order, after as many rounds as there are entries, and is still open.
  pub run_catches_up :
      (e : Events Xid) (log : List (Event Xid)) (start k : ℕ)
      → Holds d e log
      → start + k ≡ e.write_pos
      → k < e.cap
      → let w =
          run d actor
            (record { events = e; at = start; sent = []; is_open = true })
            (replicate k turns) in
        (w.at ≡ e.write_pos)
        × (w.is_open ≡ true)
        × (sent_events w.sent ≡ keep (wanted actor) (segment d log start k))
  run_catches_up e log start k h at near =
      let begun : Watch Xid = record { events = e; at = start; sent = []; is_open = true } in
      let r = turns_reach k begun refl at near in
      let (n, reached, b, sent) =
        run_delivers d actor start (replicate k turns) e log h (omega arith) in
      let all : n ≡ k = omega (arith, r.0, reached) in
      (omega (arith, r.0), r.1, rw (no_publish k, append-nil, all) at sent)
