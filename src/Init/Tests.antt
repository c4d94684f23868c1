-- ===== src/Init/Tests.antt =====
-- machined with a /dev that the kernel has mounted, and a poweroff.
use tailscale_os.Base.{
  false, String, reverse, ◌≡◌, refl, true, none, some, Option, List, [], ◌∷◌, str_eq, if◌then◌else◌,
}
use tailscale_os.Init.{
  World, mounted, busy, essential_mounts, Signal, sigchld, sigterm, sigusr1, sigusr2, main,
}
use tailscale_os.Init.Calls.{all_mounted, all_unmounted}
use tailscale_os.Init.Shutdown.{unmounted-main}
use tailscale_os.Init.Wiring.{
  Registration, Controller, resource, resolver_spec, new_state, controllers, register_each,
}
use tailscale_os.Init.Registered.{conflicts, wiring_fits}

abbrev machine : World
machine = record {
  is_first = true;
  mkdir_err = λ t. none;
  mount = λ m. if str_eq m.target "/dev" then busy else mounted;
  state_err = none;
  controller_err = none;
  services_end = true;
  reboot_err = none;
}

abbrev signals : List Signal
signals = sigchld ∷ sigusr1 ∷ sigusr2 ∷ sigterm ∷ []

unmounted-main_example :
    all_unmounted (main machine essential_mounts signals).0
    ≡ reverse (all_mounted (main machine essential_mounts signals).0)
unfolding main
unmounted-main_example = unmounted-main machine essential_mounts signals refl

-- A runtime that refuses what is in conflict, and nothing else.
abbrev refuses : Controller → Option String
refuses c = if conflicts controllers c then some "conflict" else none

refuses-conflicts : (c : Controller) → conflicts controllers c ≡ false → refuses c ≡ none
refuses-conflicts c e = rw e refl

abbrev no_error : Registration → Option String
no_error r = none

wiring_fits_example :
    (no_error (resource resolver_spec) ≡ none)
    × (register_each refuses (some "canceled") controllers ≡ (controllers, some "canceled"))
unfolding new_state
wiring_fits_example =
    wiring_fits no_error refuses (some "canceled") resolver_spec refl refuses-conflicts
