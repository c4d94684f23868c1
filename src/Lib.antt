-- ===== src/Lib.antt =====
-- The service supervisor of Tailscale OS (internal/app/machined) and the parts that work with it.
--
-- machined keeps the services of the machine. The singleton of pkg/system/system.go loads them and runs
-- each in a goroutine (Services). A service runner (pkg/system/service_runner.go) takes one service
-- through its life: it waits for conditions, makes a runner, takes the events of that runner, watches
-- the health of the service, and tells whoever waits for the service to be up, down or finished (Runner).
-- Each new state is kept in the history of the service (History) and published on the event stream of
-- the machine (Stream), from which a controller derives the resource of the service (Controllers).
-- Runners run a process (Process) or a function (Goroutine) and run it again when it ends (Restart), all
-- behind one interface (Runners). Controllers load and start udevd and apid (Boot, with the health check
-- in Udevd), others bring the routes and addresses of the kernel to what the resources ask for (Network),
-- and a drainer lets controllers stop in order (Drainer). The main program mounts the file systems, waits
-- for a signal and shuts the services down (Init). The tool tsosctl prints resources (Cli).
--
-- The files, with the code under internal/app/machined/pkg that each models:
--   Slice       the removal loop of Unsubscribe in system/health/status.go and system/service_runner.go
--   Chan        buffered channels, with the sends that drop a value where the buffer is full
--   Health      system/health/status.go (State.Update, Subscribe, Unsubscribe, Init) and check.go (Run)
--   History     system/events/events.go (ServiceEvents.Push and Get, the states)
--   Stream      runtime/v1alpha1/v1alpha1_events.go (NewEvents, Publish, Watch) and runtime/events.go
--   Runner      system/service_runner.go (UpdateState, healthUpdate, Subscribe, Unsubscribe, notifyEvent,
--               inStateLocked, Shutdown); Runner.Wakeup interleaves the goroutines around one service, and
--               Runner.Lifecycle models waitFor, Run, run and the goroutine of Start in system/system.go;
--               Runner.Conditions models waitEvent, Wait, waitRegister and String of system/service_events.go
--   Services    system/system.go (Load, Start, Stop, Shutdown, List, IsRunning, DenyNewServices);
--               Services.Stop models stopServices with the waits for its services, up to the crash of machined
--               when a service that it stops ends
--   Controllers controllers/v1alpha1/service.go (the handler of an event, and Run over the event stream)
--   Drainer     runtime/drainer.go (Drain, Subscribe, Cancel)
--   Restart     system/runner/restart/restart.go (restarter.Run)
--   Process     system/runner/process/process.go (processRunner.Run, and build in Process.Build)
--   Goroutine   system/runner/goroutine/goroutine.go (goroutineRunner.Run, wrappedMain)
--   Runners     system/runner/runner.go (the interface Runner, its implementations, restarters over them, and in
--               Runners.Options the options with their setters)
--   Udevd       system/services/udevd.go (HealthFunc)
--   Daemons     system/services (what udevd, apid and tailscaled are), system/health/settings.go, the options of
--               system/runner/restart/restart.go; Daemons.Apid models runAPID of apid.go
--   Logging     logging/zap.go, runtime/logging.go and runtime/logging/simple.go (the writers, the
--               destinations of loggers, the options), MakeLogger of internal/app/machined/controller.go;
--               Logging.Console is the console that the logs of simple.go share, with the runners on it
--   Boot        controllers/runtime (the controllers of udevd and apid, over the interface of their service
--               manager, which Boot.Singleton shows the singleton to be; device_status.go and utils.go);
--               Boot.Chain composes them with Udevd, Health, Runner and Controllers
--   Network     controllers/network/address_spec.go (syncAddress and its helpers) and route_spec.go
--               (syncRoute and its tests), and dhcp4.go (reconcile, runDHCP, computeTimers, the search domains);
--               Network.Lease models applyLease and destroy, Network.Resolver Convert, Network.Routing Normalize and RouteID of
--               pkg/machinery/resources/network, Network.Links link_status.go (reconcile, syncLink),
--               Network.Pass the loops of Run of the first two controllers
--   Init        internal/app/machined/main.go and mount.go: the mounts, the loop over signals, the shutdown;
--               Init.Wiring models controller.go and runtime/v1alpha1/v1alpha1_state.go (what machined
--               registers with the COSI runtime), and Init.Registered says how the types of resources and
--               the controllers fit
--   Cli         cmd/tsosctl/cmd/tsos/get.go and output/yaml.go (getResources, resolveResourceKind, the output);
--               Cli.Definitions is ResourceDefinition of each type of pkg/machinery/resources
--   Base        tests on numbers, lists with native indices, maps as association lists
--
-- State is passed on explicitly. A section under a lock is one step, and where the code gives the lock up
-- between two sections, the steps of others may come between them: Runner.Wakeup, Services, Drainer and
-- Stream.Consumer take any list of steps in any order. What comes from outside (the operating system, a
-- runner, a health check, a condition, a context) is a script in the order in which the code meets it.
-- Time is a number that the code is given. The sequence numbers of the event stream are an int64 that
-- only grows, and are natural numbers here; the count of discarded events, a uint, wraps at 64 bits, as on
-- the 64-bit boards.
--
-- The last UpdateState of a goroutine of Start has a nil context. Where the service has a runtime, Publish
-- panics on it, which ends machined: conclude of Runner.Lifecycle writes that out, and update_state is the
-- call with a context. In Runner.Lifecycle an update or a report of the health is one step with what it
-- publishes after its lock, so the order in which calls at the same time publish is not modelled there.
--
-- The removal loop is the only one on fuel: as much as the slice is long, for each round shortens the
-- slice or moves the index. Packages outside the repository (rs/xid, sort.Search, rtnetlink, netip,
-- nethelpers) are parameters, with what the code relies on as hypotheses of the theorems.
--
-- In the lease loop of dhcp4.go a round with a lease makes no call, so any number of rounds is a list.
--
-- Not modelled: the JSON form of events, which is input and output; NullLoggingManager, which opens /dev/null, and
-- the methods of SimpleLoggingManager that panic; the COSI runtime and package zap, which are outside the
-- repository; and how resources are copied, which is generated code.
pub mod Base
pub mod Slice
pub mod Chan
pub mod Health
pub mod History
pub mod Stream
pub mod Controllers
pub mod Runner
pub mod Drainer
pub mod Restart
pub mod Process
pub mod Services
pub mod Network
pub mod Boot
pub mod Init
pub mod Udevd
pub mod Cli
pub mod Logging
pub mod Daemons
pub mod Goroutine
pub mod Runners
