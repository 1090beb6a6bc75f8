-- ===== src/Lib.antt =====
-- The self-healing core of Crucible: the pipeline that runs nodes and takes checkpoints, the
-- detection and localization of faults, the decision on a recovery and its execution, the diagnosis,
-- the repair plans and the chain that puts them together; the response to a failed integrity check
-- and the audit log of security events; and of its gateway the lifecycle of the response plans, the
-- cache, the access control and the route planning.
--
-- How the parts interact. `PipelineExecutor.execute` runs a list of nodes on a context; after each
-- node it validates the output, lets `CheckpointManager.create` store it, and appends an entry to
-- the record of the run. `analyze_failure` gives that record to `FaultDetector.detect`, its report
-- to `FaultLocalizer.localize`, and both, with the last known good checkpoint of the manager, to
-- `RecoveryDecisionEngine.decide`. `RecoveryExecutor.execute` carries the decision out on the same
-- manager: a retry, a rerun from a node, a rollback, a quarantine, a review or an abort.
--
-- `SelfHealingOrchestrator.handle_failure` runs the whole chain on a failed run: it detects and
-- localizes the fault, lets `RootCauseAnalyzer.analyze` rank hypotheses, decides, lets
-- `RepairPlanner.plan` make a plan for the first of them, checks that the plan is safe, carries it
-- out by `SandboxExecutor.execute_plan`, validates, and resumes or rolls back by the recovery
-- executor.
--
-- Apart from these, the gateway keeps response plans in a database: `create_plan` writes a plan and
-- `transition_plan` moves it along its lifecycle, each in one transaction with its audit entry.
--
-- The gateway reads through a cache of two tiers: `get_or_set` looks into the process-local `L1Cache`,
-- then asks Redis behind a circuit breaker, then, in a flight of its own, calls the producer and
-- writes both tiers.
--
-- `ArtifactIntegrityChecker` writes a manifest beside a model artifact and verifies it at load time.
-- `SecurityRecoveryManager` answers a failed check: it quarantines the artifact, looks for a trusted
-- checkpoint, decides, and records each step by `SecurityAuditLogger`, which replays its file at start.
-- `check_mine_access` and the guards beside it say who may act on which mine and domain.
--
-- `astar` searches the cost surface of a mine for the cheapest route between two cells, `route_through`
-- joins such routes through given points, and `alternative_routes` searches again under a penalty for
-- the corridors found so far.
--
-- Which file models which part (paths from the root of the repository):
--   Pipeline/Model        app/engine/core/pipeline/status.py and the records of executor.py and
--                         checkpoints/manager.py; times are microseconds since the epoch
--   Pipeline/Runtime      what the code runs on, as a parameter `Runtime`: Python objects (`V`), the
--                         rest of the world (`W`), the clock, uuid4, json, hashlib, the disk; the
--                         state that the repository's objects hold; the monad of code that may raise
--   Pipeline/Checkpoints  app/engine/core/pipeline/checkpoints/manager.py: create, get,
--                         last_known_good, restore and the helpers
--   Pipeline/Steps        the static helpers of app/engine/core/pipeline/executor.py
--   Pipeline/Executor     its execute, cut at the try: `prepare` before it, `accept` up to the
--                         append, `propagate` to its end, `stop` for the except clause
--   Fault/Model, Fault/Detector, Fault/Localizer
--                         models.py, detector.py and localizer.py of app/engine/core/fault
--   Recovery/Decision     app/engine/core/recovery/decision.py, a function for each rule
--   Recovery/Validator    app/engine/core/recovery/validator.py
--   Recovery/Report       the records of models.py beside it, `_emit` and `_failed_result`
--   Recovery/Actions, Recovery/Rerun, Recovery/Executor
--                         app/engine/core/recovery/executor.py: the actions, `_execute_rerun` with
--                         its loops, and `execute`; analyze_failure of the pipeline executor
--   Repair/RootCause      app/engine/core/analysis/root_cause.py
--   Repair/Planner, Repair/Sandbox
--                         planner.py and sandbox.py of app/engine/core/repair
--   SelfHealing/Model     app/engine/core/self_healing/models.py
--   SelfHealing/Fallback, SelfHealing/Repairing, SelfHealing/Orchestrator
--                         orchestrator.py beside it: step 9b, steps 7 to 9a, and the rest
--   Governance/Lifecycle, Governance/Store, Governance/Plans, Governance/Creation
--                         app/api/core/decision_store.py: the states and TRANSITIONS, the tables with
--                         `transaction` of db.py beside it, transition_plan and create_plan
--   Cache/Dicts, Cache/L1, Cache/Breaker, Cache/Codec, Cache/Flights
--                         app/api/core/cache.py: the ordered dictionary, `L1Cache`,
--                         `RedisCircuitBreaker`, the serialization, `SingleFlightManager`
--   Cache/Service, Cache/Redis, Cache/Manager, Cache/Tiered
--                         the same: what the manager runs on (`Service`, a parameter) and its state
--                         (`Tiers`), `L2RedisClient`, the primitives and the interface of
--                         `TieredCacheManager`; Cache/Commands makes one and runs operations on it
--   Security/Events, Security/Audit
--                         models.py and audit.py of app/engine/core/security: the events, the log in
--                         memory and in a file, and the replay of the file (`open_log`)
--   Security/Policy, Security/Manager
--                         recovery.py beside them: `_make_decision` with what it needs; the operations
--                         of `SecurityRecoveryManager`, cut at each event that is recorded
--   Integrity/Checker     app/engine/core/integrity/checker.py, with models.py and errors.py; json, the
--                         hash and the files are parameters, the sidecar file has a text
--   Access/Roles, Access/Mines
--                         app/api/core/rbac.py: the guards on roles, and the scope of mines
--   Routing/Surface       app/api/core/routing/cost.py: the cost surface and min_cost_per_km; the
--                         neighbours of astar.py beside it
--   Routing/Search, Routing/Routes
--                         app/api/core/routing/astar.py: `astar`; `_finalise`, `route_through` and
--                         `alternative_routes`
-- The proofs are in Pipeline (Frame, Traces, Runs, Totality, Coverage), in Recovery
-- (Policy, Results, Walks, Outcomes, Gate, Resume, Rollback), in Fault/Upstream, in Repair
-- (Ranking, Plans, Runs), in SelfHealing (Performed, Results, Gates, Unhandled), in Cache (Items, Bounds,
-- Calls, Lookups, Trips, RoundTrip, Reads, Sources, Locks, Tidy, Landings, Commands), in Access
-- (Scopes, Warnings, Domains), in Integrity (Tampering, Trust), in Security (Replay, Torn,
-- Audited, Grounds, Response, Selection), in Routing (Heap, Ways, Grid, Invariant, Improving,
-- Relaxing, Turns, Loop, Termination, Rate, Heuristic, Optimal, Tours, Overlaps, Alternatives) and in
-- Governance (Edges, Effects, Approvals, Histories, Service). Samples holds data of the tests,
-- which are the Examples of each part.
--
-- The search of a route runs on fuel, nine turns for each cell of the grid and two more, which is enough:
-- a turn closes a cell and pushes at most eight pairs, or drops one pair. `_reconstruct` follows as many
-- steps as cells were closed. No other definition runs on fuel: the loops over nodes are recursions on the list, and the loop over
-- attempts is a recursion on the attempts that are left. Foreign code (a node, a validator, the
-- retried callable) is a function of the world that returns or raises, so it is assumed to return.
-- Exceptions are those that `except Exception` catches.
--
-- Left out of the model: the human-readable messages, reasons and evidence, which no code reads
-- back; the content of the metadata file of a checkpoint, which is never read; threads, which
-- these classes do not use. `str.lower` is the one of ASCII letters. Confidences are percentages, those of a diagnosis thousandths.
-- The cache counts time in whole seconds; an operation of its manager is not interrupted by another
-- thread, and its invalidation by patterns and its health report are not modelled. The time of
-- creation in an envelope, which nothing compares, is a number or absent, and the message of the
-- TypeError of a comparison is shortened.
-- Costs and lengths of the routing are whole numbers, and what the code halves is counted in halves; the
-- great-circle distance, the length of a diagonal and the layers of the terrain are given.
-- A log file is a list of code points; it is written by one logger at a time, and each write may fail at
-- its start or after any number of characters. What the security events say in words is given.
-- The database server is a parameter that may refuse any statement and that rolls back as
-- documented; a transaction runs alone. Columns that only hold texts and figures are left out.
-- The rest of the repository (the rest of the gateway and its routers, the mine operations and
-- the scenario models, the learning code and the user interfaces) is not modelled.
pub mod Prelude
pub mod Pipeline
pub mod Fault
pub mod Recovery
pub mod Repair
pub mod SelfHealing
pub mod Governance
pub mod Samples
pub mod Cache
pub mod Access
pub mod Integrity
pub mod Routing
pub mod Security
