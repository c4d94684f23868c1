-- ===== src/Daemons.antt =====
-- internal/app/machined/pkg/system/services: what udevd, apid and tailscaled are, with the defaults of
-- system/health/settings.go and the options of system/runner/restart/restart.go.
pub mod Apid
mod Tests
use tailscale_os.Base.{
  ℕ, ◌*◌, ◌^◌, ◌<◌, ◌≡◌, refl, Bool, true, false, Option, none, some, List, [], ◌∷◌, String, join,
  arith,
}
use tailscale_os.Restart.{RestartType, forever, type_string}
use tailscale_os.Services.{Service}
use tailscale_os.Runners.Options.{
  Options, Setter, new_options, with_logging_manager, with_env, with_cgroup_path,
  with_selinux_label, with_dropped_capabilities,
}

-- `health.Settings`, in nanoseconds.
pub record Settings : Type 0 where
  pub initial_delay : ℕ
  pub period : ℕ
  pub timeout : ℕ

abbrev pub milliseconds : ℕ → ℕ
milliseconds n = n * 10 ^ 6

abbrev pub seconds : ℕ → ℕ
seconds n = n * 10 ^ 9

abbrev pub default_settings : Settings
default_settings = record {
  initial_delay = seconds 1;
  period = seconds 5;
  timeout = milliseconds 500;
}

-- `restart.Options`
pub record RestartOptions : Type 0 where
  pub restart_type : RestartType
  pub restart_interval : ℕ

abbrev pub RestartOption : Type 0
RestartOption = RestartOptions → RestartOptions

abbrev pub default_restart : RestartOptions
default_restart = record { restart_type = forever; restart_interval = seconds 5 }

abbrev pub with_type : RestartType → RestartOption
with_type t o = record o { restart_type = t }

abbrev pub with_restart_interval : ℕ → RestartOption
with_restart_interval interval o = record o { restart_interval = interval }

-- The loop of `restart.New` over its options.
unfoldable pub restart_options : List RestartOption → RestartOptions → RestartOptions
restart_options [] o = o
restart_options (set ∷ sets) o = restart_options sets (set o)

-- The constants of package constants that udevd takes.
pub record Constants : Type 0 where
  pub cgroup_udevd : String
  pub selinux_label_udevd : String
  pub udevd_dropped_capabilities : List String
  pub env_xdg_runtime_dir : String

-- `L` and `S` are the types of logging managers and of readers for the standard input.
module _ (L S : Type 0) where
  -- A runner as `Runner` of a service makes it.
  pub data Plan : Type 0 where
    process : Bool → String → List String → Options L S → Plan
    goroutine : String → Options L S → Plan
    restarting : RestartOptions → Plan → Plan

  -- `String` of the runners; `quote` is the verb %q, of a list of texts.
  unfoldable pub plan_string : (List String → String) → Plan → String
  plan_string quote (process debug id args o) = join (join "Process(" (quote args)) ")"
  plan_string quote (goroutine id o) = join (join "Goroutine(" (quote (id ∷ []))) ")"
  plan_string quote (restarting o p) =
      join (join (join (join "Restart(" (type_string o.restart_type)) ", ") (plan_string quote p))
        ")"

  -- The methods of a service that give a constant.
  pub record Daemon : Type 0 where
    pub id : String
    pub volumes : List String
    pub depends_on : List String
    pub settings : Settings
    pub plan : Plan

  -- Each of the services is a `HealthcheckedService`.
  abbrev pub as_service : Daemon → Service
  as_service d = record { id = d.id; healthchecked = true }

  module _ (null_manager manager : L) where
    abbrev pub restarting_forever : Plan → Plan
    restarting_forever p = restarting (restart_options (with_type forever ∷ []) default_restart) p

    abbrev pub udevd : Constants → Daemon
    udevd c = record {
      id = "udevd";
      volumes = [];
      depends_on = [];
      settings = record {
        initial_delay = milliseconds 100;
        period = seconds 60;
        timeout = seconds 55;
      };
      plan = restarting_forever (
          process false "udevd" ("/sbin/udevd" ∷ "--resolve-names=never" ∷ []) (
            new_options L S null_manager (
              with_logging_manager L S manager
              ∷ with_cgroup_path L S c.cgroup_udevd
              ∷ with_selinux_label L S c.selinux_label_udevd
              ∷ with_dropped_capabilities L S c.udevd_dropped_capabilities
              ∷ with_env L S (c.env_xdg_runtime_dir ∷ [])
              ∷ [])));
    }

    abbrev pub apid : Daemon
    apid = record {
      id = "apid";
      volumes = [];
      depends_on = [];
      settings = default_settings;
      plan =
          restarting_forever (
            goroutine "apid"
              (new_options L S null_manager (with_logging_manager L S manager ∷ [])));
    }

    abbrev pub tailscaled : Daemon
    tailscaled = record {
      id = "tailscaled";
      volumes = [];
      depends_on = "udevd" ∷ [];
      settings = record { initial_delay = seconds 1; period = seconds 10; timeout = seconds 5 };
      plan = restarting_forever (
          process false "tailscaled"
            ("/usr/sbin/tailscaled" ∷ "--statedir=/run" ∷ "--state=mem:" ∷ [])
            (new_options L S null_manager (
              with_logging_manager L S manager
              ∷ with_env L S ("PATH=/usr/sbin" ∷ "TS_LOGS_DIR=/run/tailscale-logs" ∷ [])
              ∷ [])));
    }

    -- A check of any of the services times out before the next one is due.
    abbrev Timely : Daemon → Type 0
    Timely d = d.settings.timeout < d.settings.period

    timely : (c : Constants) → Timely (udevd c) × Timely apid × Timely tailscaled
    timely c = (omega arith, omega arith, omega arith)
