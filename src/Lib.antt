-- ===== src/Lib.antt =====
-- A model of the runner of Lattice: an agent that runs on a worker machine, takes commands from an
-- orchestrator and carries them out on the machine's Docker engine. The parts modelled here are
-- a deployment, from its specification to its verification, the scheduler of snapshots, the commands
-- on managed databases with the guard that serialises them, the socket to the orchestrator, and the
-- handler that passes log records on.
--
-- The parts, and where they are:
-- - Base: Booleans, options, lists and texts; a text is the list of its bytes.
-- - Names: docker/logstreamer.go (CanonicalContainerName), docker/docker.go (GenerateSuffix,
--   IsGeneratedSuffixSegment), deploy/rolling.go (isCanonicalVariant) and deploy/executor.go
--   (validContainerName).
-- - Docker.Engine: the calls of the Docker SDK, the clock, the random source and the free space on
--   disk, which are parameters: the answer of each call is a function of the whole history. An action
--   is a function from the history to its value and the longer history.
-- - Docker.Runs: which calls an action makes. A `Permit` says for each call on which containers it is
--   allowed; `Emits` says that an action keeps to a permit.
-- - Docker.Client: StopAndRemoveContainer and FindContainerByName of docker/docker.go, and the loops
--   that the strategies share.
-- - Deploy.Spec: DeploymentSpec and Validate of deploy/executor.go, and what the strategies read off
--   a specification (image references, names of replicas, the container to create).
-- - Deploy.Cleanup: cleanupDecision, cleanupStaleContainers and forceRemoveAllStackContainers.
-- - Deploy.Rolling: deploy/rolling.go, with the snapshots, the probe, the swap and the rollback.
-- - Deploy.Canary: deploy/canary.go, with the wait of its select.
-- - Deploy.BlueGreen: deploy/bluegreen.go, with its three phases.
-- - Deploy.Verify: postDeployVerify of deploy/executor.go.
-- - Deploy.Locks: deploy/locks.go, the order in which lockSpecContainers takes the locks. A waiting
--   deployment waits for as long as it takes, and the locks are left out of Deploy.Execute.
-- - Deploy.Execute: Execute and execute of deploy/executor.go, which run the parts in this order:
--   validation, disk space, networks, volumes, clean-up, strategy, verification.
-- - Scheduler: scheduler/scheduler.go, the cron expressions (Cron) and the jobs with the guard on
--   snapshots in flight (Jobs). A step is a call or a goroutine's end; a tick is a call of checkAndFire.
-- - Commands: main.go, the handlers of stop, start, kill, pause, unpause, restart and remove
--   (Containers), of db_create, db_start, db_stop, db_restart and db_remove (Databases) and of
--   db_snapshot, db_restore, db_mirror_snapshot and db_delete_snapshot_file (Snapshots), with the
--   payloads that they read and send (payloadString, backupDestinationFrom, buildDbReplyPayload).
--   Locks is LockContainer of deploy/locks.go, with the wait that is given up past LOCK_WAIT_LIMIT.
--   World holds the calls that they make, whose answers are functions of all that happened before,
--   and Answers and Payloads the rules for the reply that ends a command. A command comes through
--   Socket, and db_create and db_remove run between the steps of DbOps.
-- - DbOps: db_inflight.go, the table of operations with its objects and locks, and the goroutines that
--   use it, as a step relation. An object is a number, which is what a pointer is good for here.
-- - Socket: client/websocket.go, the send queue, the counts of dropped messages and the life of a
--   connection with its two pumps, as a step relation whose steps show what is queued, written, lost
--   and reported.
-- - Context: command_context.go, the ids under which a command is logged and answered.
-- - RunnerStats: runner_stats.go, the counts of dropped log events and the health of containers in
--   the log.
-- - Telemetry: telemetry/handler.go and classify of telemetry/telemetry.go: runnerHandler (Handler),
--   warnLimiter (Limiter) and lineHandler (Line).
--
-- A call that fails answers `false` or `none`; the error's text, the log lines and the texts of the
-- progress messages are left out, a progress message is an event with its status, and a lifecycle
-- event is an event with its name. The empty container id of the source is `none`. Ids are numbers,
-- so the twelve characters that the source shows of an id in the log are left out as well. A map
-- that is only looked up is a list of pairs; the greens of a blue-green deployment are walked in the
-- order of their creation, where Go chooses any order.
--
-- The loops are recursions on the list or the count that the source walks. The wait for one green
-- container runs for at most 16 rounds: the window is 30 seconds, and each round but the last sleeps
-- for two, so 16 rounds are enough. The wait for a container's lock has 2400 ticks: they come no
-- sooner than 250 milliseconds after one another, and the first one after ten minutes ends the wait.
--
-- Counts of messages and references are numbers without a bound: 2 ^ 63 of them are out of reach.
-- A number of a JSON payload is a float64, kept as the integer that int64 makes of it; the one that
-- may be a fraction, cpu_limit, is handed on as it stands.
--
-- Not modelled: the deadlines and the JSON decoding of the socket, and Drain; the regular expressions
-- of the levels, the start of telemetry and its reports of panics; the dispatch of commands in main.go
-- and its handlers beside those named; the pool of handlers and the figures of the Go runtime in the
-- runner's statistics; the database observer; the pipeline of a snapshot; the network
-- monitor; the streaming of logs; the release of a deployment's locks; the arguments of
-- Docker calls for databases; uploads to backup destinations; the web dashboard, metrics,
-- configuration and set-up, which are input and output; and the JSON decoding of a specification.
pub mod Base
pub mod Names
pub mod Docker
pub mod Commands
pub mod Context
pub mod DbOps
pub mod Deploy
pub mod RunnerStats
pub mod Scheduler
pub mod Socket
pub mod Telemetry
