-- ===== src/Lib.antt =====
-- A verification library for kubevirt-dpdk-checkup: a checkup that boots two virtual machine
-- instances on a KubeVirt cluster, a traffic generator (TRex) and a VM under test (testpmd), sends
-- packets between them and reports whether any were lost.
--
-- The parts, and the files that model them (paths from the repository's root):
-- Config, Config/*: pkg/internal/config/config.go. `new` is `New`, over the parameters as a list of
--   pairs and the octets of the random source. Guest holds the constants that the guests share.
-- Api, Vmi, Vmi/NodePlacement: the API objects as records of the fields that the program sets, and
--   the options of pkg/internal/checkup/vmi/spec.go and affinity.go as functions on them.
-- Trex/ConfigFiles: the files of pkg/internal/checkup/trex/configfiles.go, byte for byte.
-- Checkup/Instances, Checkup/ConfigMaps: the objects of pkg/internal/checkup/vmi.go, checkup.go and
--   configmap/configmap.go.
-- Checkup/State, Checkup/Requests, Checkup/Lifecycle: the type `Checkup` of
--   pkg/internal/checkup/checkup.go and its methods. A method is a function of the state, which holds
--   the object and the history of the calls that were made, and returns a result beside the new
--   state: a value, an error or a panic. A deferred function is a function on that pair.
-- Testpmd, Testpmd/Command, Testpmd/Console: pkg/internal/checkup/executor/testpmd/console.go, the
--   parsing of testpmd's statistics, its command line and its calls. Indexing out of range is a panic.
--   Testpmd/Output lays out an output as the sample in console_test.go beside it.
-- Console, Console/Login: pkg/internal/checkup/executor/console/console.go and login.go. Opening a
--   console, sending a text and running a batch are calls that the environment answers.
-- Trex/Output, Trex/Types, Trex/Client, Trex/Client/Stats: pkg/internal/checkup/trex/client.go and
--   types.go. The JSON decoder and the floating point numbers are parameters.
-- Executor: pkg/internal/checkup/executor/executor.go. The subtractions wrap at 64 bits.
-- Launcher: pkg/internal/launcher/launcher.go over any state, with the interfaces `checkup` and
--   `reporter` and the clock as a record of operations. Deferred functions run on a panic too.
-- Reporter, Status: pkg/internal/reporter/reporter.go and pkg/internal/status/status.go.
-- Cluster: pkg/internal/client/client.go, over KubeVirt's client as a record of the interfaces of a
--   namespace. `env_of` is the environment that it gives the checkup, beside the consoles.
-- Main, Main/Program, Main/Entry: `Run` of pkg/mainflow.go, and `main` of cmd/main.go with the way
--   the process ends as a value.
-- World, World/Poll: what is not in the repository. The cluster is an environment that answers each
--   call as a function of all calls before it, so that theorems hold for every behaviour of it.
--   `wait.PollImmediateUntilWithContext` is a parameter with its documented behaviour as a relation
--   of the runs that it may have: no bound on their number is assumed. `rounds` is an instance of it.
-- Go, Go/*: the parts of Go and its standard library that the program uses, on lists of bytes.
--   An `int64` is an integer with its bounds as a predicate. Parsing is structural on the text;
--   `digits` runs on fuel, one more than the number, of which a digit uses one.
-- Base: shared names and lemmas.
--
-- How the parts interact: `Main.launcher` makes the record of the launcher from the methods of the
-- checkup and the reporter; the properties of those (Checkup/Cleanup, Checkup/Deletion,
-- Checkup/Verdict) and of the executor (Executor/Keeps) fill the obligations in Launcher/Outcome,
-- which give the property of a launch (Main/NoLeak, Main/Program) and of the process (Main/Exit).
-- Main/Delivery takes a success of the process down to the counters on the consoles; Main/Refusal has
-- every way in which a process ends.
-- Launcher/Protocol states the order of the calls of a launch as a state machine, and
-- Launcher/LastReport the statuses that it reports. Checkup/Progress and Checkup/Removal say what a
-- cluster that serves its requests does; Main/Liveness and Main/Success put these together with the
-- execution and the reporter.
--
-- Not modelled: log output, the print of the configuration included; the arithmetic of floating point
-- numbers, of which only a comparison is used; the goroutine and the pipes behind a console; the
-- packages of the vendor directory, of which each call is a parameter with its documented behaviour;
-- results that an executor returns beside an error, which are empty as those of executor.go are; and in
-- the error for a batch that is too short, which no caller sends, the print of the batch.
pub mod Base
pub mod Go
pub mod Config
pub mod Api
pub mod World
pub mod Cluster
pub mod Status
pub mod Vmi
pub mod Guest
pub mod Trex
pub mod Checkup
pub mod Console
pub mod Testpmd
pub mod Executor
pub mod Launcher
pub mod Reporter
pub mod Main
