-- ===== src/Drainer/Tests.antt =====
-- The drainer at one subscription that is cancelled while the drain waits.
use tailscale_os.Base.{◌≡◌, refl, [], ◌∷◌, List}
use tailscale_os.Drainer.{
  Act, drains, looks, receives, subscribes, signals, cancels_one, act, run, fresh_start, drained,
  begin_drain, subscribe, cancel, signal, delete_first,
}
use tailscale_os.Drainer.Progress.{drain_returns}

abbrev one_controller : List Act
one_controller = subscribes ∷ drains ∷ looks ∷ cancels_one 0 ∷ signals ∷ []

drain_returns_example : (act looks (act receives (run one_controller fresh_start))).phase ≡ drained
unfolding run act begin_drain subscribe cancel signal delete_first
drain_returns_example = drain_returns one_controller refl refl refl
