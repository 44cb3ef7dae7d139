-- ===== src/Lib.antt =====
-- Verification of game-forge, a command-line tool and local daemon that develops, tests and checks browser
-- games. A project declares itself in game-forge.yaml; the daemon, one per machine, keeps a durable registry
-- of projects, resolves the project of each request, dispatches the request to an operation, and owns the
-- servers and browser sessions that operations start, which its housekeeping reclaims.
--
-- The model follows the Go code, a function of the source per function of the model; where a Go function has
-- several parts these are small functions by clauses. State is passed on explicitly: a file or a directory
-- is a value, an operation takes it and returns it with its result, and an error is a value.
--
--   Contract           internal/contract/contract.go: contract identifiers
--   Storage            the replacement of a small file: store of internal/project/registry.go (also
--                      persistEndpointPort of internal/daemon/endpoint.go), Write of
--                      internal/daemon/discovery.go
--   Project.Code       NormalizeCode of internal/project/registry.go, sanitize of internal/project/key.go
--   Project.Key        CanonicalRoot, KeyFor of internal/project/key.go
--   Project.Manifest   internal/project/project.go: the manifest, its discovery and its validation
--   Project.Registry   internal/project/registry.go: Add, Remove, Get, List, Resolve
--   Profile            internal/profile/profile.go: Run, runStages, runNested, runStage
--   Op                 internal/op: wire types (op.go), AddRaw and Lookup (registry.go), ValidateArgs and
--                      ValidateOutput (schema.go)
--   Daemon.Endpoint    internal/daemon/endpoint.go: bindEndpoint and the file behind it
--   Daemon.Credential  internal/daemon/endpoint.go: LoadMCPToken, DurableMCPToken
--   Daemon.Dispatch    internal/daemon/server.go: prepare, exec
--   Daemon.Run         internal/daemon/server.go: simpleRun, streamRun, handleRun, Run, Catalog
--   Daemon.Discovery   internal/daemon/discovery.go: Read, Write, Remove
--   Daemon.Ownership   internal/daemon/server.go: acquireLifetimeLock, OwnershipFree; Race is the lock file
--                      under several processes
--   Daemon.Serve       internal/daemon/server.go: Serve, reconcile, releaseOwned, holdStartupLock
--   Daemon.Access      internal/daemon/server.go: auth, mcpAuth; endpoint.go: localOrigin
--   Resource           internal/process/resource.go: the records of owned resources, a file each
--   Resource.Housekeeping   internal/core/core.go: tick, ReleaseOwned, the runs in flight
--   Resource.Servers   internal/core/core.go: ownsResource, refreshServerLease, stopNamedServer;
--                      internal/server/server.go: checkForeignOwned; Ensure has Ensure, register and Stop
--   Flags              internal/cli/flags.go: reorder
--   Client             internal/client/client.go: RunRequest, Run, Stream, Catalog; Connect has Connect and
--                      Ensure, and start.go; Pipeline joins it to Daemon.Run
--   Polling            the waiting loops of internal/client/start.go, internal/lifecycle/lifecycle.go and
--                      internal/server/server.go
--   Lifecycle          internal/lifecycle/lifecycle.go: Start, Stop, Restart, Stat, WaitGone
--   Frontend.Schemas   internal/mcpfrontend/frontend.go: compactSchema, injectProjectCode (Json has the values)
--   Frontend.Tools     internal/mcpfrontend/frontend.go: New, add, toolName, OpName
--   Frontend.Progress  internal/mcpfrontend/frontend.go: progressSink, errText
--   Frontend.Calls     internal/mcpfrontend/frontend.go: call, takeProjectCode; Routing joins it to
--                      Daemon.Dispatch
--   Frontend.Audit     internal/mcpfrontend/audit.go: the gates, the report and the exit code
--   Scenario           internal/scenario/scenario.go: Run, RunInBrowser, Compare; Batch is scenarioCompare of
--                      internal/core/ops.go
--   Visual             internal/visual/visual.go: Shot and what it calls; Crop is cropPNG of crop.go, Sweep is
--                      Sweep with visualSweep of internal/core/ops.go, Gpu is Verify of internal/gpu/gpu.go
--                      with IsSoftware and gpuRun, Diagnostics is browserErrors and dedupe, Samples is
--                      visualPixel and sampleImage, all three of internal/core/ops.go
--   Browser            internal/browser/agentbrowser.go: the command lines; Quoting has psQuote and psJoin,
--                      WindowsPaths the two path functions, Output what is read from the output, and
--                      Process has resolveCLI and runRaw
--   Cli                internal/cli/dispatch.go: Commands and Pages have the commands, Dispatch the choice
--                      of one; Schemas is schemas/ops, the input schemas of the operations
--   Config             internal/config/config.go: Load, Save, the paths
--   Prelude            names of the libraries, numbers, texts, maps, results
--
-- A text whose characters matter is the list of its code points; any other is a native string, which is only
-- compared and joined. A path is the list of its components. A time is a number.
--
-- What lies outside the source is an argument: the file system below manifests (`Files`), the outcome of
-- each system call of a file replacement (`Io`, `TokenIo`), the Unicode tables above ASCII and SHA-256
-- (`Machine`), the JSON Schema validator (`Schema`, `Checks`), the handlers of operations, what a stage of a profile
-- runs (`Runners`), sort.Slice, unlinking and the browser (`Host`), and which ports are free.
--
-- Further arguments: what an HTTP request comes to (`Sent`), what the rounds of a waiting loop find
-- (`Round`, `StartRound`), the service manager (`Manager`), the surroundings of a daemon process
-- (`Surroundings`), the adapter and the browser session that run scenarios (`Scenario.Host`), what
-- an invocation of agent-browser meets (`Browser.Process.System`), the standard flag package (`Cli.Parser`), the
-- YAML package and the encoder of JSON; for the visual checks the page of the browser session (`Visual.Page`), its
-- renderer (`Visual.Gpu.Device`), the PNG codec (`Visual.Crop.Png`) and the temporary files
-- (`Visual.Samples.Disk`).
--
-- `runNested` has no bound in the source, so `run` takes fuel, and `none` means that the run has not come
-- back; Profile.Laws and Profile.Cycle say for which profiles there is enough fuel. A waiting loop runs over
-- the list of its rounds, and `none` means that the list was too short; Polling and Client.Connect.Rounds
-- say how many rounds are enough. Every other loop is structural recursion.
--
-- Concurrency: the registries hold a mutex over each operation, so an operation is one step; the snapshots
-- of a housekeeping pass are taken at its start, and a registration in the middle of a pass is not modelled.
-- The ownership lock is a step relation of processes that make one system call at a time.
--
-- Not modelled: agent-browser itself, the adapter and the runner, the local commands and the rendering, the
-- MCP library and its transports, service installation, and the other handlers of internal/core/ops.go (projectInfo, doctorRun,
-- visualShot, browserEval, profileRun, the reports on servers and resources). The YAML and JSON decoders are arguments or left out.
pub mod Prelude
pub mod Contract
pub mod Browser
pub mod Visual
pub mod Cli
pub mod Scenario
pub mod Storage
pub mod Project
pub mod Profile
pub mod Daemon
pub mod Polling
pub mod Config
pub mod Frontend
pub mod Lifecycle
pub mod Client
pub mod Op
pub mod Resource
pub mod Flags
