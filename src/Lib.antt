-- ===== src/Lib.antt =====
-- A model of recertia's run engine, with the theorems that make it correct.
--
-- A run is a state that nodes rewrite one after another. The route table of contracts/graph.py says
-- which node may follow which; the loop of src/recertia/graph/engine.py calls a node, chooses a legal
-- route, and commits each hop to the checkpoint store (src/recertia/graph/store.py,
-- src/recertia/runtime/hop.py) in one transaction that the fence (src/recertia/persistence/fence.py)
-- guards with the token of the run's lease (src/recertia/graph/lease.py). Runs wait in a queue
-- (src/recertia/workers/queue.py), from which workers claim them. The nodes modelled one by one are
-- those that decide where a run goes: plan, fan_out, solve with its five ways of making an attempt,
-- validate, join, classify_failure, evolve and finalize. A node's side effects go through a ledger of
-- operations (src/recertia/graph/ops.py), so that a resumed run does not repeat them, and keyed requests
-- through a store of idempotency keys (src/recertia/persistence/idempotency.py). The jobs that improve
-- the system between runs reserve tokens against a weekly quota (src/recertia/jobs/quota_repo.py).
-- Writes to the memory of skills are recorded in a ledger whose entries are chained by their hashes
-- (src/recertia/ledger), under the same fence.
--
-- The files and the code they model:
--   Contracts/Budget: contracts/budget.py. A dictionary of totals is a function of the dimension.
--   Contracts/Common, Criteria, Failure, Branch, Run: the contracts of the same names. The fields of a
--     run state that the modelled code does not read are one text, `rest`.
--   Graph/Routes: contracts/graph.py; `routes` has the rows of ROUTES in their order.
--   Persistence/Fence: `require_lease_token`; a missing database or table is `none`.
--   Persistence/Idempotency: `reserve`, and `complete_key` and `release_key` for `complete` and `release`.
--   Graph/Lease: `RunLease`: `acquire`, `release` for `_mark_released`, `heartbeat` for `_touch_row`.
--   Graph/Store: `save`, `commit_hop` and `insert_hop`, and the reads `latest` and `latest_seq`.
--   Graph/Engine: `start`, `resume`, and `execute` for `_execute`, with `round` for one turn of its loop.
--   Graph/Engine/Held: `hold_lease` for `_hold_lease`, around `start` and `resume`.
--   Graph/Ops: `OperationLedger`; `run_once` is `pass` for a turn of its loop and `finish_op` for what
--     follows the claim, `drop_stale` what a waiter does after its deadline. Threads makes them the
--     steps of threads, with deaths and restarts.
--   Workers/Queue: `RunQueue`: the tables and `enqueue`; Claims for `_claim_one`, `_transition` and what
--     goes through it; Orphans for `reconcile_orphans`.
--   Nodes: the texts that nodes format, as data, and the errors that they raise. Classify:
--     `classify_failure`, its chain of tests a list. FanOut: `fan_out`, with Partition for
--     `_partition_criteria`. Plan: `plan`. Validate: `score_criteria` and `validate`. Finalize:
--     `finalize`. Attempt: `RuntimeWindow`, `AttemptMeter`, `failed` and `completed` of
--     src/recertia/nodes/attempt.py. Solve: `solve`, its ways in Script (also the applicator), Scratch
--     and Branches. Join: `join`. Evolve: `evolve`. System: NODE_FUNCS of src/recertia/nodes/registry.py
--     as a host of the engine.
--   Contracts/Policy: `JobQuota` of contracts/policy.py, shares in thousandths.
--   Jobs/Quota: `JobQuotaRepository`; `finish` for `_finish`, with true for `settle` and false for
--     `release`.
--   Review/Lifecycle: src/recertia/review/lifecycle.py on `write_status` of the skill store and
--     `retirement_decision`.
--   Ledger: `HashChainLedger` of src/recertia/ledger/hashchain.py with the sidecar of
--     src/recertia/ledger/sidecar.py; the file is its list of complete lines.
--   Prelude: the library's names, Python's tests and comprehensions, rows of tables, exceptions.
--   Samples, and a Tests module beside each component: the theorems at concrete inputs.
--
-- What the engine calls enters as a record, `Host`: the node functions, the hooks, the workspace
-- snapshots and the clock, over a state of their own; the theorems name what they need of it as
-- `Spends` and `Resumable`, of which Nodes/System proves the first for the modelled nodes.
-- Times and amounts of money are whole numbers of a fixed unit, so that sums
-- and orders are exact. A transaction is one function whose error leaves the database as it was. The
-- rows of a table are a list in the order of insertion.
--
-- The loop of the engine is recursion on the rounds that are left of MAX_GRAPH_STEPS = 500, as in the
-- code, which raises when they are used up. From a node a run makes at most five hops for each attempt
-- it has left and ten more, so 500 rounds are enough for 97 attempts.
--
-- A node takes what it does not compute itself as arguments: how texts are printed, the answers of the
-- tool registry, the hash and the score of a criterion, the guide that skills are stitched into, the
-- clock. Release of expired reservations is recursion on the list of those that are open. The graph's
-- solve reads the clock once for each operation.
--
-- Not modelled: the nodes intake, retrieve, distill, review, store, record_dead_end and reject_draft; the
-- fan-in that copies the workspaces of a decomposition; the ledger's
-- signatures and repair, promotion and the review queue, memory and retrieval, distillation and
-- evaluation, which are components of their own; the API, the command line, the console, telemetry,
-- subprocesses and files, which are input and output; the lock files of a lease and the processes of
-- the workers, of which only the answers enter; the JSON sidecar of the quota; copying a workspace's
-- files into those of its branches.
pub mod Prelude
pub mod Contracts
pub mod Graph
pub mod Persistence
pub mod Workers
pub mod Nodes
pub mod Jobs
pub mod Ledger
pub mod Samples
pub mod Review
