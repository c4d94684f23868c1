-- ===== src/Init/Calls.antt =====
-- What the calls of machined mount, unmount and reboot, and those of `mountAll`.
use tailscale_os.Base.{
  reverse, reverse-cons, append_assoc, succeeds, ℕ, zero, suc, ◌≡◌, refl, sym, ap, ◌∙◌, Bool, true,
  false, ◌&&◌, Option, none, some, List, [], ◌∷◌, ◌++◌, String, length,
}
use tailscale_os.Init.{
  MountSpec, MountResult, mounted, busy, refuses, Call, mounts, unmounts, reboots, World, mount_all,
  mount_one, make_and_mount, target_at, unmount_below, Outcome, over, Signal, sigchld, sigterm,
  sigint, sigusr1, sigusr2,
}

-- The targets of the mounts among some calls, and of the unmounts.
abbrev mounted_by : Call → List String
mounted_by (mounts m) = m.target ∷ []
mounted_by _ = []

abbrev unmounted_by : Call → List String
unmounted_by (unmounts t) = t ∷ []
unmounted_by _ = []

unfoldable pub all_mounted : List Call → List String
all_mounted [] = []
all_mounted (c ∷ cs) = mounted_by c ++ all_mounted cs

unfoldable pub all_unmounted : List Call → List String
all_unmounted [] = []
all_unmounted (c ∷ cs) = unmounted_by c ++ all_unmounted cs

abbrev pub targets : List MountSpec → List String
targets [] = []
targets (m ∷ ms) = m.target ∷ targets ms

-- The first signal that ends the loop, if there is one, and whether it asks for a poweroff.
abbrev pub first_stop : List Signal → Option Bool
first_stop [] = none
first_stop (sigchld ∷ later) = first_stop later
first_stop (sigusr1 ∷ later) = first_stop later
first_stop (sigterm ∷ later) = some false
first_stop (sigint ∷ later) = some false
first_stop (sigusr2 ∷ later) = some true

pub all_mounted-append :
    (cs ds : List Call) → all_mounted (cs ++ ds) ≡ all_mounted cs ++ all_mounted ds
unfolding all_mounted
all_mounted-append [] ds = refl
all_mounted-append (c ∷ cs) ds =
    ap (λ l. mounted_by c ++ l) (all_mounted-append cs ds)
    ∙ sym (append_assoc (mounted_by c) (all_mounted cs) (all_mounted ds))

pub all_unmounted-append :
    (cs ds : List Call) → all_unmounted (cs ++ ds) ≡ all_unmounted cs ++ all_unmounted ds
unfolding all_unmounted
all_unmounted-append [] ds = refl
all_unmounted-append (c ∷ cs) ds =
    ap (λ l. unmounted_by c ++ l) (all_unmounted-append cs ds)
    ∙ sym (append_assoc (unmounted_by c) (all_unmounted cs) (all_unmounted ds))

unmount_below_cons :
    (m : MountSpec) (ms : List MountSpec) (i : ℕ)
    → unmount_below (m ∷ ms) (suc i) ≡ unmount_below ms i ++ (unmounts m.target ∷ [])
unfolding unmount_below
unmount_below_cons m ms zero = refl
unmount_below_cons m ms (suc i) =
    ap (λ l. unmounts (target_at ms i) ∷ l) (unmount_below_cons m ms i)

pub unmounted-unmount_below :
    (specs : List MountSpec)
    → all_unmounted (unmount_below specs (length specs)) ≡ reverse (targets specs)
unfolding all_unmounted unmount_below
unmounted-unmount_below [] = refl
unmounted-unmount_below (m ∷ ms) =
    ap all_unmounted (unmount_below_cons m ms (length ms))
    ∙ all_unmounted-append (unmount_below ms (length ms)) (unmounts m.target ∷ [])
    ∙ ap (λ l. l ++ (m.target ∷ [])) (unmounted-unmount_below ms)
    ∙ sym (reverse-cons m.target (targets ms))

pub mounted-unmount_below :
    (specs : List MountSpec) (i : ℕ) → all_mounted (unmount_below specs i) ≡ []
unfolding all_mounted unmount_below
mounted-unmount_below specs zero = refl
mounted-unmount_below specs (suc i) = mounted-unmount_below specs i

abbrev is_mounted : MountResult → Bool
is_mounted (refuses e) = false
is_mounted _ = true

-- Whether every target is there and every mount succeeds or was there before.
abbrev pub mounts_all : World → List MountSpec → Bool
mounts_all w [] = true
mounts_all w (m ∷ ms) =
    succeeds (w.mkdir_err m.target) && (is_mounted (w.mount m) && mounts_all w ms)

-- Whether machined reaches its loop.
abbrev pub is_set_up : World → List MountSpec → Bool
is_set_up w specs =
    w.is_first && (mounts_all w specs && (succeeds w.state_err && succeeds w.controller_err))

abbrev reboot_in : Call → Option Bool → Option Bool
reboot_in (reboots p) later = some p
reboot_in _ later = later

-- The first reboot among some calls.
unfoldable pub reboot_of : List Call → Option Bool
reboot_of [] = none
reboot_of (c ∷ cs) = reboot_in c (reboot_of cs)

abbrev pub is_over : Outcome → Bool
is_over over = true
is_over _ = false

-- What holds of the calls of `mountAll`: they unmount nothing, and if there is no error they mount all.
pub record Mounts (ok : Bool) (ts : List String) (r : List Call × Option String) : Type 0 where
  pub none_unmounted : all_unmounted r.0 ≡ []
  pub no_reboot : (cs : List Call) → reboot_of (r.0 ++ cs) ≡ reboot_of cs
  pub result : succeeds r.1 ≡ ok
  pub all_targets : succeeds r.1 ≡ true → all_mounted r.0 ≡ ts

mount_one-Mounts :
    (m : MountSpec) (r : MountResult) (ok : Bool) (ts : List String)
    (rest : List Call × Option String)
    → Mounts ok ts rest
    → Mounts (is_mounted r && ok) (m.target ∷ ts) (mount_one m r rest)
unfolding all_unmounted all_mounted reboot_of
mount_one-Mounts m mounted ok ts (cs, e) h = record {
  none_unmounted = h.none_unmounted;
  no_reboot = h.no_reboot;
  result = h.result;
  all_targets = λ q. ap (λ l. m.target ∷ l) (h.all_targets q);
}
mount_one-Mounts m busy ok ts (cs, e) h = record {
  none_unmounted = h.none_unmounted;
  no_reboot = h.no_reboot;
  result = h.result;
  all_targets = λ q. ap (λ l. m.target ∷ l) (h.all_targets q);
}
mount_one-Mounts m (refuses x) ok ts (cs, e) h = record {
  none_unmounted = refl;
  no_reboot = λ ds. refl;
  result = refl;
  all_targets = λ q. cc;
}

make_and_mount-Mounts :
    (w : World) (m : MountSpec) (d : Option String) (ok : Bool) (ts : List String)
    (rest : List Call × Option String)
    → Mounts ok ts rest
    → Mounts
        (succeeds d && (is_mounted (w.mount m) && ok))
        (m.target ∷ ts)
        (make_and_mount w m d rest)
unfolding all_unmounted all_mounted reboot_of
make_and_mount-Mounts w m none ok ts rest h = mount_one-Mounts m (w.mount m) ok ts rest h
make_and_mount-Mounts w m (some x) ok ts rest h = record {
  none_unmounted = refl;
  no_reboot = λ ds. refl;
  result = refl;
  all_targets = λ q. cc;
}

pub mount_all-Mounts :
    (w : World) (specs : List MountSpec)
    → Mounts (mounts_all w specs) (targets specs) (mount_all w specs)
unfolding mount_all all_unmounted all_mounted reboot_of
mount_all-Mounts w [] = record {
  none_unmounted = refl;
  no_reboot = λ cs. refl;
  result = refl;
  all_targets = λ e. refl;
}
mount_all-Mounts w (m ∷ ms) =
    make_and_mount-Mounts w m (w.mkdir_err m.target) (mounts_all w ms) (targets ms) (mount_all w ms)
      (mount_all-Mounts w ms)
