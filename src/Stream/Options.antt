-- ===== src/Stream/Options.antt =====
-- internal/app/machined/pkg/runtime/events.go: the options of a watch. At most one of the three that
-- choose a position may be given.
use tailscale_os.Base.{
  zero, suc, Bool, true, false, not, ◌||◌, List, [], ◌∷◌, String, if◌then◌else◌,
}
use tailscale_os.Base.Int.{ℤ, pos, negsuc}

pub record WatchOptions (Xid : Type 0) : Type 0 where
  pub tail_events : ℤ
  pub tail_id : Xid
  pub tail_duration : ℤ
  pub actor_id : String

unfoldable pub is_zero : ℤ → Bool
is_zero (pos zero) = true
is_zero (pos (suc n)) = false
is_zero (negsuc n) = false

-- The errors that the setters return.
pub data OptionError : Type 0 where
  tail_events_conflict tail_id_conflict tail_duration_conflict : OptionError

pub data Outcome {ℓ} (A : Type ℓ) : Type ℓ where
  ok : A → Outcome A
  err : OptionError → Outcome A

module _ {Xid : Type 0} (is_nil : Xid → Bool) where
  abbrev pub Setter : Type 0
  Setter = WatchOptions Xid → Outcome (WatchOptions Xid)

  unfoldable pub with_tail_events : ℤ → Setter
  with_tail_events n o =
      if not (is_nil o.tail_id) || not (is_zero o.tail_duration)
      then err tail_events_conflict
      else ok (record o { tail_events = n })

  unfoldable pub with_tail_id : Xid → Setter
  with_tail_id id o =
      if not (is_zero o.tail_events) || not (is_zero o.tail_duration)
      then err tail_id_conflict
      else ok (record o { tail_id = id })

  unfoldable pub with_tail_duration : ℤ → Setter
  with_tail_duration d o =
      if not (is_zero o.tail_events) || not (is_nil o.tail_id)
      then err tail_duration_conflict
      else ok (record o { tail_duration = d })

  unfoldable pub with_actor_id : String → Setter
  with_actor_id a o = ok (record o { actor_id = a })

  -- The loop of `Watch` over its options: the first error ends it.
  unfoldable pub apply_options : List Setter → WatchOptions Xid → Outcome (WatchOptions Xid)
  apply_options [] o = ok o
  apply_options (f ∷ fs) o = elim (f o) [ ok o' ↦ apply_options fs o' | err x ↦ err x ]
