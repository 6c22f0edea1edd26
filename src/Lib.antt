-- ===== src/Lib.antt =====
-- The scheduler of fleetforge: workers register and send heartbeats over gRPC, clients submit jobs over
-- REST, and the loops of the leader match jobs to workers, reap dead workers, requeue retries and decide
-- on scaling. The truth is in Postgres; Redis holds a cache of the workers' states and the job queue.
--
-- Parts and files, each with the code that it is about (paths from the repository's root):
--   Schema, Statements: the tables of internal/store/postgres/migrations, and the WHERE clauses and
--     INSERT statements that several operations share.
--   World: the database, Redis, which calls fail, and the effects: a statement, a Redis command, a
--     transaction (pgx.BeginFunc), an ignored error, a loop.
--   WorkerStore/{Register, Liveness, Assign, Drain}: the methods of WorkerStore,
--     internal/store/postgres/workers.go, under their names in snake case.
--   JobStore/{Create, Backoff, Transitions}: the methods of JobStore, internal/store/postgres/jobs.go.
--   RedisStore/{Cache, Queue}: WorkerCache and StreamQueue, internal/store/redis, and the reads and the
--     acknowledgement that internal/scheduler/loop.go sends to the streams.
--   Scheduler/{Select, Loop, Sweeps, Autoscaler}: SelectLeastLoaded, one tick of the matching loop, the
--     reaper's sweep and the retry poller's poll, one tick of the autoscaler, internal/scheduler.
--   Grpc/{Proto, Register, Heartbeat, Report}: the messages and the handlers of internal/grpcserver.
--   Scheduler/{Leader, Leadership}: LeaderElector of internal/scheduler/leader.go, and the replicas with the
--     advisory lock, whose checks, shutdowns and ends of sessions come in any order.
--   Api/{Handlers, Listing, Router}: the handlers of internal/api, its routes and RequireScope.
--   Auth/{Base64, Jwt}: IssueToken, VerifyToken and HasScope, internal/auth/jwt.go. Auth/Mtls: the TLS
--     configurations of internal/auth/mtls.go.
--   Agent, Agent/{Startup, Executor}: the start, agentState, the receive loop, the heartbeats and the reports of cmd/worker-agent,
--     and the executor of worker-agent-runtime.
--   Config/{Text, Load}: internal/config, with what it uses of Go's strings and strconv.
--   Deployment: several replicas of cmd/scheduler on one world, each with its elector and its background
--     loops; Deployment/Startup: how one starts, with NewPool, NewClient and EnsureConsumerGroups.
--   Metrics: the gauges and the Collector of internal/metrics.
--   Ctl: mint-token and the requests of drain and resume, cmd/fleetforgectl.
--   Effects, Effects/{Streams, Values, Steps}: proof rules for actions. Consistency: the database's invariant, with a child for the
--     statements of each part; Consistency/Numbering: the retry history; Consistency/Operations: what an operation of the stores has to keep for
--     the handlers, the loops and the runs of all parts together (Consistency/Runs) to keep it;
--     Consistency/Row and its children: the same for a property of one job's row; Consistency/Forever: a job
--     with a final status; Consistency/Lifecycle: the abstract machine of a job's status and retries, the
--     runs as its paths, and with Lifecycle/Retried how often a job is retried.
--   WorkerStore/{Assigning, Exclusive, Reaping, Draining, Idle, Superseding}, JobStore/{Delays, Once, Budget,
--     Idempotent}, Scheduler/{LeastLoaded, Acknowledging, Requeueing, Matching, Reaching, Pacing}, Grpc/{Fencing, Liveness, Superseding,
--     Pending, Pushing}, Scheduler/Leadership/{Steps, OneLeader}, Auth/{RoundTrip, Soundness}, Api/Guarded,
--     Agent/{Invariant, Draining, HandOver, FirstBeat}, Config/{Lists, Labels, Usable}, Deployment/{OneActor, Groups, Ready}, Metrics/Totals, Ctl/Minted: what
--     is shown of the parts that they stand with.
--   Examples: a small fleet on which the theorems are applied.
--
-- How the model reads the code. An operation is an Action: from a World to Go's result or error and the
-- World after it. Every statement, BEGIN, COMMIT and Redis command takes one number of the World's call
-- counter, and `fails n` says whether that call fails: a theorem for all Worlds is one for all patterns of
-- failures. A failed call has had no effect. A transaction that returns an error, or whose COMMIT fails,
-- leaves the database that it began with. Where Go ignores an error after logging it, the model goes on.
-- An operation reads the clock once. Requests and ticks run one after the other; a run is a list of them
-- in any order.
--
-- Bounds and representation. A UUID is a number and an empty text is `none`; a text that is no UUID is a
-- failing call. An instant is the number of nanoseconds since Go's zero time, so Postgres' rounding to
-- microseconds is left out. The integers that can be negative are ℤ; the 64 bits of a time.Duration and
-- the int32 retry counter are written out, while epochs, slots and counts are unbounded. Rows in no
-- stated order come in the table's order. float64 is a record of operations, Floats, which the theorems
-- take as a parameter. An epoch in a message, the heartbeat interval and its timeout are natural numbers,
-- and the scheduler and the reaper have the same timeout in a run: negative ones, and the int32 of a
-- timeout from 2^31 on, are left to Deployment/Startup. A stream entry has the required capabilities as the
-- consumer reads them: joined with commas and split again. No definition runs on fuel: every loop is
-- over a list or a text.
--
-- Texts that the program takes apart are lists of bytes, in internal/config and cmd/fleetforgectl of code
-- points. HMAC, JSON, ParseFloat, the advisory lock, the HTTP client, the files, X.509, dialling, pgxpool, go-redis' connections and
-- the random draw are parameters.
-- The agent's methods hold its mutex, so its two goroutines are steps in any order. A connection of a
-- replica is known by the replica and a number; a session that has ended does not come back.
-- A background loop reads its elector's flag once, before a tick, and a tick is one step: the ticks of two
-- replicas do not overlap. What a failed start leaves behind is not kept.
--
-- Not modelled: the TLS handshake, the text of the replies, logs and counters, trimming of the
-- streams, the updated_at trigger and the partitions, the servers, the readiness check and
-- the shutdown in cmd/scheduler, the signals, and the table that cmd/fleetforgectl prints: they call libraries and
-- keep no state.
pub mod Base
pub mod Schema
pub mod World
pub mod Statements
pub mod WorkerStore
pub mod JobStore
pub mod RedisStore
pub mod Scheduler
pub mod Grpc
pub mod Auth
pub mod Api
pub mod Effects
pub mod Agent
pub mod Config
pub mod Metrics
pub mod Ctl
pub mod Consistency
pub mod Deployment
pub mod Examples
