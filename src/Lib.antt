-- ===== src/Lib.antt =====
-- admirald: the control plane of a fleet of nodes. It serves an HTTP API to administrators, to
-- the Harbor portal and to the agents of nodes, keeps its state in PostgreSQL, and hands tasks
-- to the nodes through a durable queue. This library models its core as functions on tables and
-- states.
--
-- Parts and files:
-- * Queue (internal/queue/queue.go, pkg/admiral/queue.go, pkg/admiral/tasks.go). A table is a
--   list of rows in storage order, and each method one function on it, with the time, the random
--   bytes and the rows that others hold locked as arguments. Queue/Command has the rows,
--   Queue/Codec how a payload is sealed and read (sealPayload, openPayload), Queue/Publish
--   PublishTask and PublishRejectedTask, Queue/Claim claimTask, Queue/Settle all other methods.
--   Queue/History has the calls as a step relation; the other files have proofs about orders,
--   leases, retries, removal and delivery.
-- * RateLimit (internal/api/middleware.go, internal/database/ratelimit.go). RateLimit/Interface
--   has the interface Limiter, RateLimit/Memory the RateLimiter in memory, RateLimit/Store the
--   DBRateLimiter over the table rate_limits.
-- * Auth (internal/api/middleware.go, auth_errors.go, node_auth.go and admin_auth.go,
--   internal/database/sessions.go and users.go). The middleware are functions of a request and
--   of a state, generic in the limiter: Auth/Admin has the static tokens, Auth/Node the nodes
--   and their callbacks, Auth/Operator the operator tokens, Auth/Session the sessions,
--   Auth/Login login and change of the password, Auth/SessionEvents what the server does to the
--   sessions over time.
-- * Nodes (internal/api/handlers_policy.go, internal/database/capacity.go, health.go and
--   database.go). Nodes/Node has the rows and the statements on them, Nodes/Capacity the limits
--   and the sizes, Nodes/Reasons the reason codes, Nodes/Policy recomputeNodePolicy and
--   evaluateNodeForTier, Nodes/Select selectNodeForTier. Nodes/Fits, Nodes/Healthy and
--   Nodes/Promise say when a node is eligible, healthy and available, Nodes/Sorted,
--   Nodes/Chosen, Nodes/Choosing and Nodes/Selected which one is chosen, Nodes/Reserve what a
--   reservation does. Nodes/Wireguard has nextKnownHostAssignment and nextKnownHostAssignments
--   (internal/api/handlers_nodes.go); Nodes/Addresses,
--   Nodes/Assigned and Nodes/KnownHost have the proofs.
-- * Provision (internal/database/provision_requests.go, internal/api/provision_idempotency.go).
--   Provision/Requests has the tables and their transactions, Provision/Replay the answers to
--   repeated requests, Provision/Blocked what recordBlockedWorkloadAttempt
--   (internal/api/handlers_policy.go) writes where no node has room, Provision/Handler the handler
--   of provisioning requests up to the reservation (HandleCustomerApps of
--   internal/api/handlers_instances.go). Provision/Once and Provision/Kept have what holds over any
--   sequence of steps, Provision/Rejected and Provision/Placed what a provisioning request leaves.
-- * Apps (pkg/admiral/validation.go). Apps/Cycles has validateDependencyCycles, Apps/Reaches the
--   graph of services, Apps/Terminates and Apps/Acyclic the proofs; Apps/Environment has
--   validateEnvironmentMap, Apps/Images the references to images
--   (pkg/admiral/image_reference.go).
-- * Instances (internal/database/instances.go). Instances/Instance has the rows and statements that
--   the callbacks use.
-- * Operations (internal/database/operations.go). Operations/Operation has the rows and their
--   statements, Operations/Migration CreateMigrationOperation, Operations/Created and
--   Operations/Active the proofs about migrations.
-- * Fleet (internal/api/handlers_fleet.go, internal/api/handlers_tasks.go). Fleet/Evidence has
--   validateRestartImageEvidence. The claim of a task: Fleet/Stale has staleTaskReason,
--   Fleet/TaskClaim HandleTaskClaim, Fleet/Eligible, Fleet/Rounds, Fleet/HandedOut and Fleet/Live
--   the proofs. Fleet/Enqueue has enqueueTaskWithID, and Fleet/Enqueued the way from there to the
--   claim. The callback: Fleet/State has the tables and the decoders, Fleet/Backups
--   handleBackupCallback, Fleet/Capacity handleResizeCallback and what is released,
--   Fleet/Effects the effects by action, Fleet/Callback HandleFleetCallback; Fleet/Kept,
--   Fleet/Aftermath, Fleet/Verified, Fleet/Outcomes, Fleet/Repeated and Fleet/Answered have the proofs.
-- * Scheduler (internal/api/scheduler.go). Scheduler/Schedule has EvaluateBackupSchedule, with the
--   calendar as a record of parameters, Scheduler/Due when it answers yes.
-- * Shared has what these use in common: lists and rows, integers, texts, errors, Boolean tests.
--
-- How they interact: a provisioning request selects a node by its policy (Nodes) and reserves
-- its capacity in the transaction that records the request (Provision). The middleware ask a
-- limiter before they look at a token and tell it of failures; the session middleware, the login
-- and the change of the password use the database's limiter, the others the one in memory. The
-- queue is called by the handlers of nodes behind the middleware of nodes: enqueueing assigns a
-- task to an operation and publishes it (Queue), the claim of a node hands it out only if the
-- operation and the instance still want it, and the callback settles the command and the
-- operation, and changes the instance and the capacity of its node (Nodes).
--
-- Conventions: times are natural numbers, seconds in the queue and nanoseconds elsewhere, and
-- the machine's integers are natural numbers too: the counters involved stay far below 2^63;
-- byte counts are integers, also far below it. Loops are over lists, but for the search of
-- Apps/Cycles, whose fuel is one more than the number of services, which bounds the depth of its
-- calls: it is proved to suffice. HandleTaskClaim has 128 rounds, as in the source, and with fewer
-- active commands of the node they suffice. A text that the code only passes on, such as the rest
-- of a task's document, is one field. float64 is a record of operations that is a parameter, and
-- so are the functions of net/netip, whose IPv4 addresses are numbers modulo 2^32. A
-- transaction that rolls back returns the table it was given. The database answers, or does not
-- for a whole request (`up`).
--
-- Not modelled: the texts of responses and logs, JSON, and cryptography (bcrypt, SHA-256, HMAC,
-- AES-GCM, random numbers), which are records of functions; `getClientIP`, whose answer is a
-- field of the request; public routes and what callbacks do to them; the other checks of
-- applications, the steps of provisioning after the reservation (secrets, routes, the task), the
-- actions on instances, what the scheduler starts, and the outbox, which nothing calls.
pub mod Shared
pub mod RateLimit
pub mod Queue
pub mod Auth
pub mod Nodes
pub mod Provision
pub mod Apps
pub mod Instances
pub mod Operations
pub mod Fleet
pub mod Scheduler
