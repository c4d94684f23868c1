-- ===== src/Runners/Options.antt =====
-- internal/app/machined/pkg/system/runner/runner.go: the options of a runner and their setters, as
-- `NewRunner` of the two runners applies them.
use tailscale_os.Base.{ℕ, ◌*◌, ◌^◌, ◌≡◌, refl, Bool, true, Option, none, List, [], ◌∷◌, String}
use tailscale_os.Base.Int.{ℤ, pos}
use tailscale_os.Process.Build.{Files}

-- `L` and `S` are the types of logging managers and of readers for the standard input. A time is in
-- nanoseconds.
module _ (L S : Type 0) where
  pub record Options : Type 0 where
    pub logging_manager : L
    pub env : List String
    pub graceful_shutdown_timeout : ℤ
    pub stdin : Option S
    pub oom_score_adj : ℤ
    pub cgroup_path : String
    pub log_id : String
    pub host_network_files : Bool
    pub dropped_capabilities : List String
    pub selinux_label : String
    pub stdin_file : String
    pub stdout_file : String
    pub stderr_file : String
    pub uid : ℕ
    pub priority : ℤ

  -- A setter.
  abbrev pub Setter : Type 0
  Setter = Options → Options

  abbrev pub default_options : L → Options
  default_options null_manager = record {
    logging_manager = null_manager;
    env = [];
    graceful_shutdown_timeout = pos (10 * 10 ^ 9);
    stdin = none;
    oom_score_adj = pos 0;
    cgroup_path = "";
    log_id = "";
    host_network_files = true;
    dropped_capabilities = [];
    selinux_label = "";
    stdin_file = "";
    stdout_file = "";
    stderr_file = "";
    uid = 0;
    priority = pos 0;
  }

  abbrev pub with_env : List String → Setter
  with_env env o = record o { env = env }

  abbrev pub with_logging_manager : L → Setter
  with_logging_manager manager o = record o { logging_manager = manager }

  abbrev pub with_graceful_shutdown_timeout : ℤ → Setter
  with_graceful_shutdown_timeout timeout o = record o { graceful_shutdown_timeout = timeout }

  abbrev pub with_stdin : Option S → Setter
  with_stdin stdin o = record o { stdin = stdin }

  abbrev pub with_oom_score_adj : ℤ → Setter
  with_oom_score_adj score o = record o { oom_score_adj = score }

  abbrev pub with_cgroup_path : String → Setter
  with_cgroup_path path o = record o { cgroup_path = path }

  abbrev pub with_log_id : String → Setter
  with_log_id id o = record o { log_id = id }

  abbrev pub with_host_network_files : Bool → Setter
  with_host_network_files enabled o = record o { host_network_files = enabled }

  abbrev pub with_selinux_label : String → Setter
  with_selinux_label label o = record o { selinux_label = label }

  -- The keys of a map, in the order in which Go gives them.
  abbrev pub with_dropped_capabilities : List String → Setter
  with_dropped_capabilities caps o = record o { dropped_capabilities = caps }

  abbrev pub with_stdin_file : String → Setter
  with_stdin_file path o = record o { stdin_file = path }

  abbrev pub with_stdout_file : String → Setter
  with_stdout_file path o = record o { stdout_file = path }

  abbrev pub with_stderr_file : String → Setter
  with_stderr_file path o = record o { stderr_file = path }

  abbrev pub with_uid : ℕ → Setter
  with_uid uid o = record o { uid = uid }

  abbrev pub with_priority : ℤ → Setter
  with_priority priority o = record o { priority = priority }

  -- The loop of `NewRunner` over its setters.
  unfoldable pub apply_all : List Setter → Setter
  apply_all [] o = o
  apply_all (set ∷ sets) o = apply_all sets (set o)

  unfoldable pub new_options : L → List Setter → Options
  unfolding apply_all
  new_options null_manager sets = apply_all sets (default_options null_manager)

  -- What the process runner reads of its options: the logs, the environment, the timeout and the files.
  abbrev pub read_by_process : Options → L × (List String × (ℤ × Files))
  read_by_process o = (
    o.logging_manager,
    (
      o.env,
      (
        o.graceful_shutdown_timeout,
        record { stdin = o.stdin_file; stdout = o.stdout_file; stderr = o.stderr_file },
      ),
    ),
  )

  -- With the options of udevd the process runner reads the same as without a cgroup, a label and
  -- dropped capabilities.
  udevd_options :
      (null_manager manager : L) (path label : String) (caps env : List String)
      → read_by_process (
          new_options null_manager (
            with_logging_manager manager
            ∷ with_cgroup_path path
            ∷ with_selinux_label label
            ∷ with_dropped_capabilities caps
            ∷ with_env env
            ∷ []))
        ≡ read_by_process
            (new_options null_manager (with_logging_manager manager ∷ with_env env ∷ []))
  unfolding new_options
  udevd_options null_manager manager path label caps env = refl
