-- ===== src/Udevd/Triggered.antt =====
-- The events of the devices are triggered before udevd is healthy, and once.
use tailscale_os.Base.{
  ℕ, suc, ◌+◌, ◌==◌, ◌≡◌, refl, ap, ◌∙◌, ltb, Bool, true, false, not, ◌||◌, Option, none, some,
  List, [], ◌∷◌, ◌++◌, String, succeeds, if◌then◌else◌, arith,
}
use tailscale_os.Udevd.{
  Udevd, new_udevd, CheckScript, Command, reloads, triggers_devices, triggers_subsystems, settles,
  Checked, after_command, start_of, ends_before, settle_extra, settle_all, trigger_all, after_file,
  health_check, run_checks,
}

-- The number of full triggers, which end with that of the subsystems.
abbrev pub triggers_in : List Command → ℕ
triggers_in [] = 0
triggers_in (triggers_subsystems true ∷ cs) = suc (triggers_in cs)
triggers_in (_ ∷ cs) = triggers_in cs

abbrev pub one_if : Bool → ℕ
one_if b = if b then 1 else 0

abbrev pub any_healthy : List (Option String) → Bool
any_healthy [] = false
any_healthy (e ∷ es) = succeeds e || any_healthy es

-- What a part of a check keeps: it triggers as often as it sets the flag, which it never resets, and it is
-- healthy only with the flag.
pub record Once (u : Udevd) (r : Checked) : Type 0 where
  pub counts : triggers_in r.0 + one_if u.triggered ≡ one_if r.1.0.triggered
  pub healthy_after : (not (succeeds r.1.1) || r.1.0.triggered) ≡ true

settle_extra-Once : (s : CheckScript) (u : Udevd) → u.triggered ≡ true → Once u (settle_extra s u)
unfolding settle_extra
settle_extra-Once s u t =
    verdict ((u.extra_settle_time == 0) || (ltb end s.now || ends_before end s.deadline))
  where
    end : ℕ
    end = start_of s.settled_at u.extra_settle_start + u.extra_settle_time

    v : Udevd
    v = record u { extra_settle_start = some (start_of s.settled_at u.extra_settle_start) }

    verdict :
        (b : Bool)
        → Once u (
            if b
            then ([], (v, none))
            else ([], (v, some "waiting for udevd for extra settle timeout")))
    verdict true = record { counts = omega arith; healthy_after = t }
    verdict false = record { counts = omega arith; healthy_after = refl }

plain-Once :
    (c : Bool → Command) (o : Option String) (u : Udevd) (later : Checked)
    → ((b : Bool) (cs : List Command) → triggers_in (c b ∷ cs) ≡ triggers_in cs)
    → Once u later
    → Once u (after_command c o u later)
plain-Once c none u later plain h = record {
  counts = ap (λ n. n + one_if u.triggered) (plain true later.0) ∙ h.counts;
  healthy_after = h.healthy_after;
}
plain-Once c (some e) u later plain h = record {
  counts = omega (arith, plain false []);
  healthy_after = refl;
}

settle_all-Once : (s : CheckScript) (u : Udevd) → u.triggered ≡ true → Once u (settle_all s u)
unfolding settle_all
settle_all-Once s u t =
    plain-Once settles s.settle_err u (settle_extra s u) (λ b cs. refl) (settle_extra-Once s u t)

trigger-Once :
    (o : Option String) (u : Udevd) (later : Checked)
    → u.triggered ≡ false
    → Once (record u { triggered = true }) later
    → Once u (after_command triggers_subsystems o u later)
trigger-Once none u later f h = record {
  counts = ground (arith, f, h.counts);
  healthy_after = h.healthy_after;
}
trigger-Once (some e) u later f h = record { counts = omega arith; healthy_after = refl }

trigger_all-Once : (s : CheckScript) (u : Udevd) → Once u (trigger_all s u)
unfolding trigger_all
trigger_all-Once s u = by_flag u.triggered refl
  where
    rest : Checked
    rest = settle_all s (record u { triggered = true })

    by_flag :
        (b : Bool)
        → u.triggered ≡ b
        → Once u (
            if b
            then settle_all s u
            else after_command triggers_devices s.devices_err u
                (after_command triggers_subsystems s.subsystems_err u rest))
    by_flag true before = settle_all-Once s u before
    by_flag false new =
        plain-Once triggers_devices s.devices_err u
          (after_command triggers_subsystems s.subsystems_err u rest) (λ b cs. refl)
          (trigger-Once s.subsystems_err u rest new
            (settle_all-Once s (record u { triggered = true }) refl))

pub health_check-Once : (s : CheckScript) (u : Udevd) → Once u (health_check s u)
unfolding health_check
health_check-Once s u =
    filed s.file_err (after_command reloads s.reload_err u (trigger_all s u))
      (plain-Once reloads s.reload_err u (trigger_all s u) (λ b cs. refl) (trigger_all-Once s u))
  where
    filed : (o : Option String) (r : Checked) → Once u r → Once u (after_file o u r)
    filed none r h = h
    filed (some e) r h = record { counts = omega arith; healthy_after = refl }

pub triggers-append :
    (cs ds : List Command) → triggers_in (cs ++ ds) ≡ triggers_in cs + triggers_in ds
triggers-append [] ds = omega arith
triggers-append (reloads b ∷ cs) ds = triggers-append cs ds
triggers-append (triggers_devices b ∷ cs) ds = triggers-append cs ds
triggers-append (triggers_subsystems true ∷ cs) ds = omega (arith, triggers-append cs ds)
triggers-append (triggers_subsystems false ∷ cs) ds = triggers-append cs ds
triggers-append (settles b ∷ cs) ds = triggers-append cs ds

run_checks-Once :
    (ss : List CheckScript) (u : Udevd)
    → let r = run_checks ss u in
      (triggers_in r.0 + one_if u.triggered ≡ one_if r.1.0.triggered)
      × ((not (any_healthy r.1.1) || r.1.0.triggered) ≡ true)
unfolding run_checks
run_checks-Once [] u = (omega arith, refl)
run_checks-Once (s ∷ ss) u =
    let r : Checked = health_check s u in
    let h = health_check-Once s u in
    let (counts, healthy) = run_checks-Once ss r.1.0 in
    (
      omega (arith, triggers-append r.0 (run_checks ss r.1.0).0, h.counts, counts),
      ground (arith, h.healthy_after, healthy, counts),
    )

-- From a start on, the events of the devices are triggered in full at most once, whatever fails and
-- however often udevd is checked, and once they are before any check finds udevd healthy.
pub triggers-run_checks :
    (extra : ℕ) (ss : List CheckScript)
    → let r = run_checks ss (new_udevd extra) in
      (triggers_in r.0 ≡ one_if r.1.0.triggered)
      × ((not (any_healthy r.1.1) || r.1.0.triggered) ≡ true)
triggers-run_checks extra ss =
    let (counts, healthy) = run_checks-Once ss (new_udevd extra) in (omega (arith, counts), healthy)
