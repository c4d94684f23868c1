-- ===== src/Services/Denied.antt =====
-- Once new services are refused, none is loaded or started.
use tailscale_os.Base.{◌≤◌, ◌≡◌, true, String}
use tailscale_os.Services.{Services, closed}
use tailscale_os.Services.Exclusive.{number}

-- Nothing was loaded or started on the way from one to the other, and nothing will be.
pub record Shrinks (x y : Services) : Type 0 where
  pub still : closed y ≡ true
  pub same_state : y.state ≡ x.state
  pub fewer : (id : String) → number id y.live ≤ number id x.live
