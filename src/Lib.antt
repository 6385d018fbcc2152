-- ===== src/Lib.antt =====
-- A verification library for Eval Triage (backend/eval_triage), a workbench that plans evaluation
-- runs, executes their trials through a durable job queue, grades the outputs and compares two
-- runs for a release decision. Each module names the file that it models.
--
-- Parts, from the repository's root:
--
--   Base        shared helpers: tests, lists, tables with primary keys, dictionaries, JSON, text
--   Enums       backend/eval_triage/domain/enums.py
--   Jobs        backend/eval_triage/execution/jobs.py, class Job of backend/eval_triage/db/models.py
--   Grading     backend/eval_triage/graders/base.py; Grading/Outcome: trial_outcome of
--               graders/runner.py, with the theorems in Grading/PassRule
--   Retry       backend/eval_triage/execution/retry.py
--   Runs        the rows of backend/eval_triage/db/models.py that a run changes, execution/events.py;
--               Runs/Finalize and Runs/Reconcile: execution/finalize.py; Runs/Trials and
--               Runs/Finish: `terminate`, `_prepare` and `_finish` of execution/trial_runner.py;
--               Runs/Completion, Runs/Ended, Runs/Ending, Runs/Starting, Runs/Finished: their theorems;
--               Runs/Plan, Runs/Validate and Runs/Create: `validate_run` and `create_run` of
--               execution/runs.py, with the theorems in Runs/Planned, Runs/Slots and Runs/Created;
--               Runs/Cancel: its `cancel_run` and `_after_job` of worker.py, with the theorems in
--               Runs/Cancelled
--   Gate        `evaluate_gate` of backend/eval_triage/statistics/bootstrap.py; Gate/Rule: the policy in
--               words, Gate/Verdict: the decision against it
--   Refs        backend/eval_triage/domain/refs.py; Refs/Tokens, Refs/Grammar and Refs/Fuel: the grammar
--               of references and the parser against it
--   Episode     backend/eval_triage/domain/episode.py; Episode/Calls and Episode/Run:
--               execution/episode.py; Episode/Rules, Episode/Records, Episode/Status, Episode/Depends
--               (with Episode/Outputs and Episode/Lost): the theorems
--   Sandbox     backend/eval_triage/execution/sandbox.py; Sandbox/Agent: `execute_agent` of
--               execution/executors.py; Sandbox/Safety and Sandbox/Turns: the theorems
--   Checks      backend/eval_triage/graders/deterministic.py, with the expected results of
--               domain/packs.py and the facts of domain/memory_state.py: Checks/Tools, Checks/Answers,
--               Checks/Memory, Checks/Steps, and Checks/Declared for the invariants; Checks/Verdicts,
--               Checks/Facts and Checks/Findings: the theorems
--   Memory      bridges/memoryai/evalai_bridge/backends/fake.py: the event log and the facts;
--               Memory/Remember, Memory/Review, Memory/Rebuild: the operations. The theorems:
--               Memory/Ledger, Memory/Changes, Memory/Replayed on what the log and the facts have to
--               do with each other, Memory/Sound and the modules it serves (Kept, Reviewed, Waiting,
--               Forgotten, Rebuilt, Trace) on every store that can be reached, Memory/Undo,
--               Memory/Retracted, Memory/Undone on a retraction that is forgotten, Memory/Fallen on
--               a rebuild, Memory/Once on reviews. Memory/Pages:
--               the listings and the snapshot of backends/base.py, Memory/Paged: that they are whole
--   Facts       backend/eval_triage/statistics/facts.py: the exact matching; Facts/Matching: how much it
--               matches
--
--   Tests       runs on concrete data, and the theorems at inputs that meet their hypotheses
--
-- How the parts interact: the worker claims a job (Jobs), executes the trial or the grading
-- behind it, and reports the end to the queue; a trial's grades are combined by the pass rule
-- (Grading), and the grades come from the checks (Checks) of what an episode (Episode, with the
-- references of Refs) or an agent in its sandbox (Sandbox) left; a transport call is repeated by
-- Retry; the comparison of two runs is decided by the gate (Gate). A database table is the list of
-- its rows in the order of insertion, a dictionary an association list in the order of insertion,
-- and each write transaction is one function from the tables to the tables, since BEGIN IMMEDIATE
-- serialises the writers. An id is a random UUID, taken as the number that its text of fixed
-- width spells, so that the order of texts is the order of numbers; a time is a number of ticks,
-- and what utcnow or new_id gives is an argument.
--
-- Loops over collections are structural recursions, and a counted loop recurs on the rounds left,
-- so no fuel is used, but for two scans of a text: the segments of a reference (Refs) and the places
-- of an effect's template (Sandbox) take the size of the text as fuel, and each round takes a character
-- at least; and for the pages of a store's facts (Memory/Pages), where a page that is not the last
-- takes 500 facts.
--
-- A run is created by one transaction, which makes its trials and their jobs, so that the queue sees
-- all of them or none. The store of Memory has a counter for the ids of events, as AUTOINCREMENT
-- has, and one for those of facts, which are random UUIDs in the source; Python's regular
-- expressions and MemoryAI's own `only_filler` are arguments of its operations.
--
-- Not modelled: the HTTP API, the command line, the adapters that call providers, the database
-- engine and its migrations, the front end, and every computation on floats but the comparisons
-- that a gate makes.
pub mod Base
pub mod Checks
pub mod Enums
pub mod Episode
pub mod Gate
pub mod Grading
pub mod Jobs
pub mod Memory
pub mod Facts
pub mod Refs
pub mod Retry
pub mod Runs
pub mod Sandbox
pub mod Tests
