-- ===== src/Daemons/Tests.antt =====
-- What the runners of the services are called, and apid with a client that stays.
use tailscale_os.Base.{◌≡◌, refl, true, false, none, [], ◌∷◌}
use tailscale_os.Restart.{type_string}
use tailscale_os.Daemons.{apid, plan_string, restart_options}
use tailscale_os.Daemons.Apid.{ApidScript, run_apid, draining, listens, serves, stops}

apid_runner :
    plan_string (Unit {0}) (Unit {0}) (λ ss. "'apid'") (apid (Unit {0}) (Unit {0}) tt tt).plan
    ≡ "Restart(Forever, Goroutine('apid'))"
unfolding plan_string restart_options type_string
apid_runner = refl

-- A watch of a client keeps the server from its end.
abbrev watched : ApidScript
watched = record {
  listen_err = none;
  serve_err = none;
  asked = true;
  drains = false;
  close_err = none;
}

apid_drains : run_apid watched ≡ (listens ∷ serves ∷ stops ∷ [], draining)
unfolding run_apid
apid_drains = refl
