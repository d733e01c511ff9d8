-- ===== src/Lib.antt =====
-- A verification of the pipelines, the task runtime, the guards and the access checks of
-- FileAutomation.
--
-- The program automates work on files. Its pipelines are graphs of tasks: a pipeline is built and
-- planned (automation_file/pipeline/pipeline.py), the placeholders of its actions are checked and
-- filled in (automation_file/pipeline/substitution.py), its graph is checked and ordered
-- (automation_file/pipeline/graph.py), and a run of it is the work of one coordinator
-- (automation_file/pipeline/runner.py) that starts a thread for each task
-- (automation_file/pipeline/worker.py) and keeps a record of each (automation_file/pipeline/model.py).
-- Actions can be guarded on their own by a circuit breaker, a rate limiter, a quota and a retry
-- decorator, and kept in a durable queue (automation_file/core). A server asks an access list before
-- it runs an action (automation_file/server).
--
-- Base holds what the modules share: tests on numbers and strings, lists over the native numbers,
-- dictionaries in the order of insertion, results, and JSON data (Base.Json).
--
-- Core.CircuitBreaker: `CircuitBreaker` of automation_file/core/circuit_breaker.py. Every block under
-- the lock is a function on the breaker (`admit` and `settle` are the two halves of `call`), so
-- `steps` is any interleaving of threads.
-- Core.RateLimiter: `RateLimiter` of automation_file/core/rate_limit.py. A token is divided into the
-- units in which the clock counts, so the numbers are natural; the readings of the clock in each
-- round of `acquire` are its argument.
-- Core.Quota: `Quota` of automation_file/core/quota.py. Core.Retry: `retry_on_transient` of
-- automation_file/core/retry.py, with what the function does in each attempt as an argument.
-- Core.ActionQueue: `ActionQueue` of automation_file/core/action_queue.py. The database table is a
-- list of rows, and each method is the SQL that it sends; Life has sequences of calls. What
-- `json.dumps` and `json.loads` do is a parameter.
-- Server.ActionAcl: automation_file/server/action_acl.py. `walk` is the loop of `nested_action_names`
-- over its stack; its fuel is the number of values and keys in the arguments, and it is enough.
--
-- Pipeline.Graph: the four functions of automation_file/pipeline/graph.py. `walk` is the loop of
-- `_cycle_from` over its stack, `level_rounds` the loop of `task_levels`, and `climb` the loop of
-- `upstream_tasks`. Their fuel is the number of tasks and edges that a loop can still handle, and
-- theorems below show that it is enough.
-- Pipeline.Model: the data of automation_file/pipeline/model.py, with the back-off and the tests on a
-- status.
-- Pipeline.Worker: automation_file/pipeline/worker.py. A thread is a phase between two statements;
-- `work` carries out its next one. What the task itself does is an outcome that is given from
-- outside, and `settle` is the block that records it, under the flight's lock.
-- Pipeline.Runner: automation_file/pipeline/runner.py. `Engine` is the state of the coordinator with
-- the threads and the records; Gate is `_gate` and what it calls, Moves has one round of each loop,
-- and Steps puts them in the order of `_loop` (`coordinate`), next to the steps of the threads, the
-- cancellation by the caller and an exception that ends the run. `run` is any sequence of steps, so
-- its theorems hold for every interleaving.
-- Pipeline.Substitution: automation_file/pipeline/substitution.py, with the regular expressions written
-- out as functions on texts. Render has the functions that go through an action.
-- Pipeline.Planning: automation_file/pipeline/pipeline.py with the checks of
-- automation_file/pipeline/definition.py that it calls. `create` and `add_task` build a pipeline, and
-- `Builds` are the pipelines that they can build; Runs has `_plan`, `start` and `resume` up to the
-- point where `engine_of` hands over to Pipeline.Runner; DryRuns has `_dry_run`.
-- Pipeline.Records: the `to_dict` and `from_dict` of automation_file/pipeline/model.py, for records with
-- their time stamps. What `isoformat`, `fromisoformat`, `json.dumps` and `repr` do is a parameter.
-- Integrity.Compare: `_compare` of automation_file/integrity/detector.py, for an entry of
-- automation_file/integrity/snapshot.py before and after. Integrity.Snapshots: `Snapshot` of the latter.
-- Integrity.Detect: `detect_changes` of the former, with the pairing of renames.
-- Scheduler.RunHistory: the records and the history of automation_file/scheduler/runs.py, under its
-- lock; `steps` is any sequence of the calls that change it.
--
-- What the runner asks of a callable `when`, of the placeholders of an idempotency key and of the
-- store is a parameter, `World`, without any hypothesis on it.
--
-- Not modelled: checkpoints, events, logs and the time stamps of a run in progress; an exception in the middle of one round of
-- the coordinator; the call of a registered action; values of other types than the declared ones; the
-- definition documents and the run store; the other packages (storage, remote, user interface,
-- and the rest of the scheduler and of the server), which are mostly input and output.
pub mod Base
pub mod Core
pub mod Integrity
pub mod Pipeline
pub mod Scheduler
pub mod Server
