-- ===== src/Lib.antt =====
-- The orchestrator of kapi: a queue of agent jobs on Postgres tables, the control plane that
-- creates, watches and ends runs, and the router of model calls.
--
-- How the parts work together. A run is a tree of jobs. VMs claim jobs under a lease
-- (packages/queue), keep the lease by heartbeats, and complete or fail the job; the reaper takes
-- back what has run out. Every change of state writes an event in the same transaction, and each
-- run numbers its events. The control plane (apps/control-plane) serves the VMs, lets a captain
-- spawn and cancel jobs within the run's budget, admits model calls, and ends the run when its
-- root job ends. Agents call models through the router (packages/llm).
--
-- The model. The database is a record of tables, and a table is a list of rows (Db.Tables, from
-- packages/db/src/ddl.ts). A transaction is a function from the database to a result and a new
-- database, or to an error that leaves nothing behind (Db.Tx). The row locks of the statements
-- make concurrent transactions wait, so they run one after the other; where SKIP LOCKED looks past
-- other transactions' rows, the set of rows held is an argument. A handler is a sequence of
-- transactions, and keeps what the earlier ones committed if a later one throws (Db.Handler);
-- where it waits for a model or a provider, what else happens to the database meanwhile is a
-- function (elapse). The time, fresh ids and the parsed request are arguments of an operation.
-- Ids, VMs, users and times are numbers; texts are compared only where the code does it.
--
--   Base        tests, lists, tables with keys, and membership, used everywhere
--   Protocol    packages/protocol/src: jobs.ts and ids.ts in Jobs, events.ts in Events, review.ts in
--               Review, agent-api.ts in AgentApi; Text and Context hold texts and free-form objects
--   Db          packages/db/src: Tables, Tx, Handler; Retry is retryDeadlockedTransaction
--   Queue       packages/queue/src: claim.ts in Claim, lifecycle.ts in Lifecycle, reaper.ts in
--               Reaper, events.ts in Events; below them, what the operations do
--   ControlPlane  apps/control-plane/src: run-lifecycle.ts in RunLifecycle; agent-api.ts in
--               AgentApi and AgentTx, with /agent/spawn in Spawn and /agent/inbox in
--               AgentApi.Inbox, and the routes behind the lease middleware in AgentApi.Serving;
--               model-admission.ts in Admission; rate-limiter.ts in RateLimiter and
--               request-tracker.ts in RequestTracker; run-service.ts in RunService, scheduler.ts
--               in Scheduler with create, update and remove in Scheduler.Crud; accounting.ts in
--               Accounting, provisioner.ts in Provisioner, with its `provision` in Provision and
--               its #pending in Pending, reconciler.ts in Reconciler; events.ts and ws.ts in
--               EventHub; github-webhook.ts in Webhook, with its checks in GithubCheck and
--               matchRun in RunMatch; model-proxy.ts in ModelCall, and its checkpoint and chunk
--               routes in Checkpoints
--   Agent       apps/agent/src: saving and loading a checkpoint, client.ts, in Client
--   AgentCore   packages/agent-core/src: loop.ts in Loop, with its compact in Compact; Messages has the
--               types of model-api.ts and types.ts. Loop.Journal, Loop.Steps and Loop.Blocked say what
--               the loop does
--   Identity    packages/identity/src: job-token.ts in JobToken
--   Llm         packages/llm/src: types.ts in Types, budget.ts in Budget, catalog.ts in Catalog,
--               router.ts in Router
--   Invariant   what the statements keep. Guard is an interface with one field for each kind of
--               statement; QueueOps, Reaping, RunOps, SchedulerOps, FleetOps, SpawnOps, AgentOps,
--               WebhookOps and AdmissionOps go from the statements to the operations once, for every property that
--               fills it; Whole, Riders, Exclusive and Delivered fill it
--   Trace       sequences of transactions and requests in any order, and what holds after them
--   Tests       a small database, and each theorem at it
--
-- The agent's loop (AgentCore.Loop) is a function of an environment that says, at each time it is
-- asked, what the model answers, what a tool does and whether the lease is alive; its trace holds the
-- checkpoints, the askings and the tools that ran. The event hub (ControlPlane.EventHub) is a step
-- function of one run and one client, and the list of steps is the interleaving.
--
-- Fuel. The recursive queries over parents and children (Queue.Lifecycle.closure,
-- ControlPlane.Spawn.depth_from, ControlPlane.AgentApi.chain) go as many rounds as there are jobs. A
-- parent is inserted before its children, so no chain of parents is longer. The turns of the agent's
-- loop go on fuel, and AgentCore.Loop.Steps has how much is enough. EventHub.chase goes as many rounds
-- as events wait, since each round takes one out. The other loops are structural.
--
-- Not modelled. The schemas' checks of a request (zod), HTTP, the providers of VMs, the vault and
-- the sign-in, the web pages and the view of a run that they show, the agent's tools, the announcement of a
-- run's spent VM budget, the rest of the agent's client, git credentials, and the clients of the
-- event hub that watch every run. The cron parser, base64, JSON, the parser of repository URLs
-- (packages/protocol/src/repository.ts), the digests of node:crypto, the codes of a token, the
-- price of a VM's time and a model call are parameters. A random id is the caller's; where it must
-- be new, a hypothesis says so. The evidence of a usage receipt, vmSpec, and the time stamps of
-- events and messages are left out.
mod Base
pub mod Protocol
pub mod Db
pub mod Queue
pub mod Invariant
pub mod ControlPlane
pub mod Trace
mod Tests
pub mod Llm
pub mod AgentCore
pub mod Identity
pub mod Agent
