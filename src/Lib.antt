-- ===== src/Lib.antt =====
-- A model of Agent-native OS: a microkernel that routes calls between plugins, and the plugins that
-- take a task from its creation to a reviewed change.
--
-- The parts and their files
--
-- Kernel.Registry (kernel/internal/registry/registry.go) knows the plugins, their health and the one
-- writer of each stateful authority. State holds the records; Admission is AddManifest, Runtimes is
-- RegisterRuntime and RemoveRuntime, Health is the marks and the circuit breaker, Fence is
-- SetFenceRoot and persistFenceLocked, Resolve is ResolveForKind. Each method holds the mutex for
-- its whole body, so it is one function from a registry to a registry; Trace puts them together as
-- a step, all but SetFenceRoot, which the kernel calls once before any of them: the registry with
-- which a trace starts is arbitrary. The file system is the map of fence files and a Boolean that says whether its calls
-- succeed. Kernel.Manifest, Kernel.Contracts and Kernel.Protocol are the data these use
-- (kernel/internal/manifest, kernel/internal/contractmeta, kernel/sdk/go/protocol).
--
-- Kernel.Fencing (kernel/sdk/go/fencing/fencing.go) is the check that a plugin makes around every
-- write: it reads the lease that the registry has written.
--
-- Kernel.Manifest.Validate is Validate of a manifest, with filepath.Clean of the Go library in
-- Kernel.Manifest.Path; Kernel.Policy (kernel/internal/policy/policy.go) is the check of the policy file.
--
-- Kernel.Authz (kernel/internal/authz/authz.go) is the policy: Engine is its grants and tests, Pattern
-- is path.Match of the Go library, which they call, on the bytes of a text.
--
-- Kernel.Router (kernel/internal/router/router.go) carries a call from a client or a process to a
-- provider that the registry resolves, under the policy. State is its tables; Invoke is invoke in
-- two parts, begin up to the call of the provider and finish behind it, between which other calls
-- run; Streams is RemoveClient, forwardStream and the cancels; Publish is publishEnvelope. Trace
-- puts them together as a step. What is sent to a process or into a stream's channel is a result of
-- the step. Policy changes are not among the steps: the policy is a parameter.
--
-- Plugins.EventLog is the log that every store under plugins/ keeps, Load and append of
-- plugins/work-registry/store.go and its copies: lines, the piece without a newline, and what the
-- operating system does with a write. Plugins.WorkRegistry (plugins/work-registry) has its Store
-- and its Handlers over this log, Plugins.Review (plugins/review) too; Plugins.Reply is what a
-- handler gives back.
--
-- Plugins.Workspace (plugins/workspace) has its Store over this log as well; Git is the calls of
-- gitworktree.go over a git that is a parameter, and the Handlers change the store and git's world. A
-- release reads the store before it waits for the fence, and so takes the store that it has read apart
-- from the one that it changes. Best and Choice are about the workspace that a context gets, Later
-- and Release about a release.
--
-- Plugins.Archive is the store that plugins/session, plugins/tool-runner and plugins/artifact have in
-- common. Plugins.Session (plugins/session) puts a finished run into it: Checkpoint is checkpoint.go,
-- Selection and Seal are sealOnce, Handlers the handlers. Plugins.ToolRunner (plugins/tool-runner)
-- runs builds and tests: Runner is runCommand over the processes of the system, Handlers is runTool
-- and the handlers.
--
-- Plugins.EngineeringWorkflow (plugins/engineering-workflow) runs a task: Gate is gate.go, Caps and
-- Pipeline are pipeline.go, Progress is progress.go and the handler get. The capabilities of the
-- other plugins are the fields of the record Caps, each a step of an abstract world. Ledger lets any
-- such capabilities enter their answers beside this world, for what Story and Finish say of a run.
--
-- Bounds and fuel
--
-- Numbers are 64-bit words that wrap around (Prelude.Int64). Theorems on epochs and on the numbers of
-- a log assume that these stay below 2^63 - 1, which no run reaches that counts them one by one. The
-- only loop with fuel is the one that waits for a review; a deadline that passes bounds it.
--
-- What is not modelled
--
-- JSON: a handler takes what its payload decodes to. Names and times, which the host makes, are
-- arguments. The texts of error messages are left out but for the reasons of a run. Concurrency
-- inside a method of a store is excluded by its mutex; between a handler's read and its fenced write it
-- is modelled for the release of a workspace. The router locks parts of a method only, and is split
-- where it waits for a provider. The transport of the router and the supervisor, which are goroutines
-- around processes, and the other plugins are outside the model.
pub mod Prelude
pub mod Kernel
pub mod Plugins
