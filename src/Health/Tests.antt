-- ===== src/Health/Tests.antt =====
-- The health of a service at concrete verdicts.
use tailscale_os.Base.{◌≡◌, refl, some, true, false, [], ◌∷◌}
use tailscale_os.Chan.{make, Store}
use tailscale_os.Health.{HealthState, StateChange, update_health}

abbrev healthy : HealthState
healthy = record {
  status = record { healthy = some true; last_change = 3; last_message = "" };
  subscribers = 1 ∷ [];
}

abbrev quiet_channels : Store StateChange
quiet_channels = λ _. make 1

new_verdict_is_stored :
    (update_health 8 false "timeout" healthy quiet_channels).0.status
    ≡ record { healthy = some false; last_change = 8; last_message = "timeout" }
unfolding update_health
new_verdict_is_stored = refl
