-- ===== src/Init/Shutdown.antt =====
-- How machined ends.
use tailscale_os.Base.{
  reverse, append-nil, succeeds, is_some, ℕ, zero, suc, ◌≡◌, refl, sym, ap, ◌∙◌, Bool, true, false,
  ◌&&◌, Option, none, some, List, [], ◌∷◌, ◌++◌, String, join, length, if◌then◌else◌, arith,
  Bool-cases, inl, inr,
}
use tailscale_os.Init.{
  MountSpec, Call, runs_controllers, stops_services, reboots, World, mount_all, after_mounts,
  after_state, unmount_below, sync_and_unmount_all, Outcome, fatal, waits, hangs, shut_down, Signal,
  sigchld, sigterm, sigint, sigusr1, sigusr2, main_loop, main, reboot_outcome,
}
use tailscale_os.Init.Calls.{
  all_mounted, all_unmounted, targets, first_stop, all_mounted-append, all_unmounted-append,
  unmounted-unmount_below, mounted-unmount_below, mounts_all, is_set_up, reboot_of, is_over, Mounts,
  mount_all-Mounts,
}

-- What holds of the calls of the loop, where `p` is what the first signal that ends it asks for.
record Stops (w : World) (specs : List MountSpec) (p : Option Bool) (r : List Call × Outcome)
    : Type 0 where
  ends : is_over r.1 ≡ (is_some p && (w.services_end && succeeds w.reboot_err))
  reboot : reboot_of r.0 ≡ (if w.services_end then p else none)
  none_mounted : all_mounted r.0 ≡ []
  unmounts_all : is_over r.1 ≡ true → all_unmounted r.0 ≡ reverse (targets specs)

reboot-unmount_below :
    (specs : List MountSpec) (i : ℕ) (p : Bool)
    → reboot_of (unmount_below specs i ++ (reboots p ∷ [])) ≡ some p
unfolding reboot_of unmount_below
reboot-unmount_below specs zero p = refl
reboot-unmount_below specs (suc i) p = reboot-unmount_below specs i p

is_over-reboot_outcome : (o : Option String) → is_over (reboot_outcome o) ≡ succeeds o
is_over-reboot_outcome none = refl
is_over-reboot_outcome (some e) = refl

down-Stops :
    (w : World) (specs : List MountSpec) (b p : Bool)
    → b ≡ w.services_end
    → Stops w specs (some p) (
        if b
        then (
          stops_services ∷ (sync_and_unmount_all specs ++ (reboots p ∷ [])),
          reboot_outcome w.reboot_err,
        )
        else (stops_services ∷ [], hangs))
unfolding sync_and_unmount_all reboot_of all_mounted all_unmounted
down-Stops w specs true p e = record {
  ends = ground (arith, e, is_over-reboot_outcome w.reboot_err);
  reboot = reboot-unmount_below specs (length specs) p ∙ ap (λ b. if b then some p else none) e;
  none_mounted =
      all_mounted-append (unmount_below specs (length specs)) (reboots p ∷ [])
      ∙ ap (λ l. l ++ []) (mounted-unmount_below specs (length specs));
  unmounts_all = λ q.
      all_unmounted-append (unmount_below specs (length specs)) (reboots p ∷ [])
      ∙ append-nil (all_unmounted (unmount_below specs (length specs)))
      ∙ unmounted-unmount_below specs;
}
down-Stops w specs false p e = record {
  ends = ground (arith, e);
  reboot = ap (λ b. if b then some p else none) e;
  none_mounted = refl;
  unmounts_all = λ q. cc;
}

shut_down-Stops :
    (w : World) (specs : List MountSpec) (p : Bool) → Stops w specs (some p) (shut_down w specs p)
unfolding shut_down
shut_down-Stops w specs p = down-Stops w specs w.services_end p refl

waits-Stops : (w : World) (specs : List MountSpec) → Stops w specs none ([], waits)
unfolding reboot_of all_mounted
waits-Stops w specs = record {
  ends = refl;
  reboot = ground arith;
  none_mounted = refl;
  unmounts_all = λ q. cc;
}

loop-Stops :
    (w : World) (specs : List MountSpec) (signals : List Signal)
    → Stops w specs (first_stop signals) (main_loop w specs signals)
unfolding main_loop
loop-Stops w specs [] = waits-Stops w specs
loop-Stops w specs (sigchld ∷ later) = loop-Stops w specs later
loop-Stops w specs (sigusr1 ∷ later) = loop-Stops w specs later
loop-Stops w specs (sigterm ∷ later) = shut_down-Stops w specs false
loop-Stops w specs (sigint ∷ later) = shut_down-Stops w specs false
loop-Stops w specs (sigusr2 ∷ later) = shut_down-Stops w specs true

-- `main` after the mounts.
abbrev Reaches : World → List MountSpec → List Signal → Bool → List Call × Outcome → Type 0
Reaches w specs signals ok r =
    (is_over r.1
      ≡ (ok && (is_some (first_stop signals) && (w.services_end && succeeds w.reboot_err))))
    × (reboot_of r.0 ≡ (if ok && w.services_end then first_stop signals else none))

abbrev Undoes : List Call × Outcome → Type 0
Undoes r = is_over r.1 ≡ true → all_unmounted r.0 ≡ reverse (all_mounted r.0)

fatal-Reaches :
    (w : World) (specs : List MountSpec) (signals : List Signal) (cs : List Call) (e : String)
    → reboot_of cs ≡ none
    → Reaches w specs signals false (cs, fatal e)
fatal-Reaches w specs signals cs e q = (refl, q)

no_reboot_at_all :
    (ok : Bool) (ts : List String) (r : List Call × Option String)
    → Mounts ok ts r
    → reboot_of r.0 ≡ none
unfolding reboot_of
no_reboot_at_all ok ts r h = ap reboot_of (sym (append-nil r.0)) ∙ h.no_reboot []

after_state-Reaches :
    (w : World) (specs : List MountSpec) (signals : List Signal) (cs : List Call)
    (s c : Option String)
    → Mounts true (targets specs) (cs, none)
    → Reaches w specs signals (succeeds s && succeeds c) (after_state w specs signals cs s c)
      × Undoes (after_state w specs signals cs s c)
unfolding reboot_of all_mounted all_unmounted
after_state-Reaches w specs signals cs (some e) c h = (
  fatal-Reaches w specs signals cs (join "state setup failed: " e)
      (no_reboot_at_all true (targets specs) (cs, none) h),
  λ q. cc,
)
after_state-Reaches w specs signals cs none (some e) h = (
  fatal-Reaches w specs signals cs (join "could not create root controller: " e)
      (no_reboot_at_all true (targets specs) (cs, none) h),
  λ q. cc,
)
after_state-Reaches w specs signals cs none none h =
    let r : List Call × Outcome = main_loop w specs signals in
    let loop : Stops w specs (first_stop signals) r = loop-Stops w specs signals in
    (
      (loop.ends, h.no_reboot (runs_controllers ∷ r.0) ∙ loop.reboot),
      λ q.
          all_unmounted-append cs (runs_controllers ∷ r.0)
          ∙ ap (λ l. l ++ all_unmounted r.0) h.none_unmounted
          ∙ loop.unmounts_all q
          ∙ ap reverse (
              sym (
                all_mounted-append cs (runs_controllers ∷ r.0)
                ∙ ap (λ l. all_mounted cs ++ l) loop.none_mounted
                ∙ append-nil (all_mounted cs)
                ∙ h.all_targets refl)),
    )

after_mounts-Reaches :
    (w : World) (specs : List MountSpec) (signals : List Signal) (ok : Bool)
    (r : List Call × Option String)
    → Mounts ok (targets specs) r
    → Reaches w specs signals
        (ok && (succeeds w.state_err && succeeds w.controller_err))
        (after_mounts w specs signals r)
      × Undoes (after_mounts w specs signals r)
after_mounts-Reaches w specs signals true (cs, none) h =
    after_state-Reaches w specs signals cs w.state_err w.controller_err h
after_mounts-Reaches w specs signals false (cs, none) h = cc
after_mounts-Reaches w specs signals false (cs, some e) h = (
  fatal-Reaches w specs signals cs (join "mount setup failed: " e)
      (no_reboot_at_all false (targets specs) (cs, some e) h),
  λ q. cc,
)
after_mounts-Reaches w specs signals true (cs, some e) h = cc

main-Reaches :
    (w : World) (specs : List MountSpec) (signals : List Signal)
    → Reaches w specs signals (is_set_up w specs) (main w specs signals)
      × Undoes (main w specs signals)
unfolding main reboot_of
main-Reaches w specs signals = elim (Bool-cases w.is_first) [
  | inl first ↦
      rw (first, main)
        (after_mounts-Reaches w specs signals (mounts_all w specs) (mount_all w specs)
          (mount_all-Mounts w specs))
  | inr other ↦ rw (other, main) ((refl, refl), λ q. cc)
]

-- machined comes to its end exactly if it could set up and one of the signals that end its loop arrives,
-- the services end and the reboot succeeds; and it asks for a reboot exactly if it could set up, such a
-- signal arrives and the services end: for a poweroff if the first such signal is SIGUSR2, else for a
-- restart.
pub main_ends :
    (w : World) (specs : List MountSpec) (signals : List Signal)
    → let r = main w specs signals in
      (is_over r.1 ≡ (
        is_set_up w specs
        && (is_some (first_stop signals) && (w.services_end && succeeds w.reboot_err))))
      × (reboot_of r.0 ≡ (if is_set_up w specs && w.services_end then first_stop signals else none))
main_ends w specs signals = (main-Reaches w specs signals).0

-- When machined comes to its end, it has unmounted the targets of its mounts, also of those that
-- were there before, each as often as it asked for it and in the reverse order.
pub unmounted-main :
    (w : World) (specs : List MountSpec) (signals : List Signal)
    → is_over (main w specs signals).1 ≡ true
    → all_unmounted (main w specs signals).0 ≡ reverse (all_mounted (main w specs signals).0)
unmounted-main w specs signals = (main-Reaches w specs signals).1
