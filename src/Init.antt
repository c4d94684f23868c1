-- ===== src/Init.antt =====
-- internal/app/machined/main.go and mount.go: what machined does as the first process, from the mounts to
-- the reboot. The operating system is a parameter.
use tailscale_os.Base.{
  ℕ, zero, suc, Bool, true, false, Option, none, some, List, [], ◌∷◌, ◌++◌, String, join, length,
  if◌then◌else◌,
}
pub mod Calls
pub mod Shutdown
pub mod Wiring
pub mod Registered
mod Tests

-- The flags of a mount, of which several may be set.
pub data MountFlag : Type 0 where
  nosuid noexec nodev : MountFlag

pub record MountSpec : Type 0 where
  pub source : String
  pub target : String
  pub fstype : String
  pub flags : List MountFlag
  pub options : String

abbrev pub essential_mounts : List MountSpec
essential_mounts =
    record {
      source = "proc";
      target = "/proc";
      fstype = "proc";
      flags = nosuid ∷ noexec ∷ nodev ∷ [];
      options = "";
    }
    ∷ record {
      source = "sysfs";
      target = "/sys";
      fstype = "sysfs";
      flags = nosuid ∷ noexec ∷ nodev ∷ [];
      options = "";
    }
    ∷ record {
      source = "devtmpfs";
      target = "/dev";
      fstype = "devtmpfs";
      flags = nosuid ∷ [];
      options = "mode=0755";
    }
    ∷ record {
      source = "devpts";
      target = "/dev/pts";
      fstype = "devpts";
      flags = nosuid ∷ noexec ∷ [];
      options = "mode=0620,gid=5,ptmxmode=0666";
    }
    ∷ record {
      source = "tmpfs";
      target = "/dev/shm";
      fstype = "tmpfs";
      flags = nosuid ∷ nodev ∷ [];
      options = "mode=1777";
    }
    ∷ record {
      source = "tmpfs";
      target = "/run";
      fstype = "tmpfs";
      flags = nosuid ∷ nodev ∷ [];
      options = "mode=0755";
    }
    ∷ record {
      source = "cgroup2";
      target = "/sys/fs/cgroup";
      fstype = "cgroup2";
      flags = nosuid ∷ noexec ∷ nodev ∷ [];
      options = "";
    }
    ∷ []

pub data MountResult : Type 0 where
  mounted busy : MountResult
  refuses : String → MountResult

-- The calls of the operating system and of the singleton, in order. `reboots true` is a poweroff.
pub data Call : Type 0 where
  makes_dir : String → Call
  mounts : MountSpec → Call
  runs_controllers stops_services syncs : Call
  unmounts : String → Call
  reboots : Bool → Call

-- What machined meets: whether it is the first process, the results of the calls, the errors of the state
-- and of the controllers, and whether `Shutdown` of the singleton returns.
pub record World : Type 0 where
  pub is_first : Bool
  pub mkdir_err : String → Option String
  pub mount : MountSpec → MountResult
  pub state_err : Option String
  pub controller_err : Option String
  pub services_end : Bool
  pub reboot_err : Option String

abbrev then_calls : List Call → List Call × Option String → List Call × Option String
then_calls cs (ds, e) = (cs ++ ds, e)

abbrev pub mount_one :
    MountSpec → MountResult → List Call × Option String → List Call × Option String
mount_one m mounted rest = then_calls (makes_dir m.target ∷ mounts m ∷ []) rest
mount_one m busy rest = then_calls (makes_dir m.target ∷ mounts m ∷ []) rest
mount_one m (refuses e) rest =
    (makes_dir m.target ∷ mounts m ∷ [], some (join (join (join "mount " m.target) ": ") e))

abbrev pub make_and_mount :
    World → MountSpec → Option String → List Call × Option String → List Call × Option String
make_and_mount w m none rest = mount_one m (w.mount m) rest
make_and_mount w m (some e) rest =
    (makes_dir m.target ∷ [], some (join (join (join "mkdir " m.target) ": ") e))

-- `mountAll`: what it calls, and its error.
unfoldable pub mount_all : World → List MountSpec → List Call × Option String
mount_all w [] = ([], none)
mount_all w (m ∷ ms) = let rest = mount_all w ms in make_and_mount w m (w.mkdir_err m.target) rest

abbrev pub target_at : List MountSpec → ℕ → String
target_at [] i = ""
target_at (m ∷ ms) zero = m.target
target_at (m ∷ ms) (suc i) = target_at ms i

-- The loop of `syncAndUnmountAll` from an index down, where an error is logged.
unfoldable pub unmount_below : List MountSpec → ℕ → List Call
unmount_below specs zero = []
unmount_below specs (suc i) = unmounts (target_at specs i) ∷ unmount_below specs i

unfoldable pub sync_and_unmount_all : List MountSpec → List Call
unfolding unmount_below
sync_and_unmount_all specs = syncs ∷ unmount_below specs (length specs)

-- How far machined comes: it fails with an error, waits for a signal, waits for its services, or is over.
pub data Outcome : Type 0 where
  fatal : String → Outcome
  waits hangs over : Outcome

abbrev reboot_outcome : Option String → Outcome
reboot_outcome none = over
reboot_outcome (some e) = fatal (join "reboot syscall failed: " e)

-- `shutdown`
unfoldable pub shut_down : World → List MountSpec → Bool → List Call × Outcome
unfolding sync_and_unmount_all
shut_down w specs poweroff =
    if w.services_end
    then (
      stops_services ∷ (sync_and_unmount_all specs ++ (reboots poweroff ∷ [])),
      reboot_outcome w.reboot_err,
    )
    else (stops_services ∷ [], hangs)

pub data Signal : Type 0 where
  sigchld sigterm sigint sigusr1 sigusr2 : Signal

-- The loop of `main` over the signals that arrive.
unfoldable pub main_loop : World → List MountSpec → List Signal → List Call × Outcome
unfolding shut_down
main_loop w specs [] = ([], waits)
main_loop w specs (sigchld ∷ later) = main_loop w specs later
main_loop w specs (sigterm ∷ later) = shut_down w specs false
main_loop w specs (sigint ∷ later) = shut_down w specs false
main_loop w specs (sigusr2 ∷ later) = shut_down w specs true
main_loop w specs (sigusr1 ∷ later) = main_loop w specs later

-- `main` after the mounts, with the errors of the state and of the controllers.
abbrev pub after_state :
    World
    → List MountSpec
    → List Signal
    → List Call
    → Option String
    → Option String
    → List Call × Outcome
after_state w specs signals cs (some e) c = (cs, fatal (join "state setup failed: " e))
after_state w specs signals cs none (some e) =
    (cs, fatal (join "could not create root controller: " e))
after_state w specs signals cs none none =
    let r = main_loop w specs signals in (cs ++ (runs_controllers ∷ r.0), r.1)

abbrev pub after_mounts :
    World → List MountSpec → List Signal → List Call × Option String → List Call × Outcome
after_mounts w specs signals (cs, some e) = (cs, fatal (join "mount setup failed: " e))
after_mounts w specs signals (cs, none) =
    after_state w specs signals cs w.state_err w.controller_err

-- `main`, with the mounts as an argument.
unfoldable pub main : World → List MountSpec → List Signal → List Call × Outcome
unfolding mount_all main_loop
main w specs signals =
    if w.is_first
    then after_mounts w specs signals (mount_all w specs)
    else ([], fatal "machined must run as PID 1")
