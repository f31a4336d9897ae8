-- ===== src/Lib.antt =====
-- Denkeeper runs language-model agents for one operator: agents use tools, ask for approval before
-- some of them, and hand tasks to each other. Seven of its packages are modelled here. They do not
-- call each other; all are called by the agents' engine and its tools, the HTTP API and the chat
-- adapters. Three keep their state in SQLite tables, two in memory,
-- and two have none.
--
-- internal/task: the tasks that agents, external clients and the operator hand to each other.
--   Task: the data of task.go. A status or an event kind that is none of the known ones keeps its
--     text.
--   Task/Rules: rules.go, who may move a task to which status.
--   Task/Db: the tables and statements of store.go (getTask, addEvent, inTx, mutate). The driver is a
--     parameter, Env: which statements of a call it carries out, and the clock of each. Every
--     statement may fail, and a transaction that fails leaves the tables alone.
--   Task/Store: Store.Create, Checkout, Release, SetStatus, Assign, Edit, Comment of store.go.
--   Task/Service: Service of service.go, with the directory of agents, the auditor and the hook as
--     parameters.
--   Task/Run: the calls of the service as commands, and sequences of them.
--   Task/Lifecycle, Effect, Invariant, Track, Access, Claims, History, Members, Partial, Rollback:
--     proofs, each on what its name says.
--
-- internal/approval: requests that wait for the operator.
--   Approval: the data of approval.go and autoapprove.go, and the state of Manager. The record of the
--     actions that ran is an addition: the code keeps none.
--   Approval/Table: the statements of sqlite.go. The surroundings are a parameter, Oracle: whether the
--     driver carries out a statement, the clock, fresh identifiers, what a closure returns, and the
--     order that SQLite gives to rows of the same query. A moment, which each statement and each
--     closure advances, makes the answers differ from call to call.
--   Approval/Manager: registry.go, and Submit, Resolve, Abort, SubmitAndWait of manager.go, with the
--     expiry worker's tick. A closure is named by a number. The two halves of SubmitAndWait are
--     separate calls, so that any calls may stand between them.
--   Approval/Callback, Auto, Config, Handler: parseCallback and ExtractToolName; auto-approve rules and
--     ResolveByCallback; SetConfigRules; the answers of callback.go.
--   Approval/Run: the calls of the manager, and sequences of them.
--   Approval/Effect, Settle, Calls, Presses, Invariant, Track, Outcomes, Resolve, Parse,
--   Blessing, Expiry: proofs.
--
-- internal/llm: completions by providers of language models.
--   Llm: the data and the classification of errors of provider.go. Go's float64 is a parameter,
--     Dollars, without laws: its addition is not associative.
--   Llm/Cost, Pricing, Leak: cost.go, pricing/registry.go, leak.go.
--   Llm/Retry, Router, Complete: router.go, from one call of a provider to completeInternal. What a
--     provider answers, and whether the context ends, is a parameter, Net, by the moment. The log of
--     requests and the time waited are additions: the code keeps none.
--   Llm/Ledger, Billing, Fallbacks, Requests, Limits, Longest, Registered, Delay: proofs.
--
-- internal/scheduler: cron and interval schedules.
--   Scheduler/Field, Cron: expr.go. The calendar is a parameter. The loop of parseCronPart has 130
--     rounds, which are enough since a value is below 64; that of next has the minutes of 366 days.
--   Scheduler/Entries: scheduler.go, the entries with the loops that run for them.
--   Scheduler/Run: the calls and the ticks of loops as commands, and sequences of them.
--   Scheduler/Bits, Ranges, Earliest, Each, Loops, OnTime, Paused: proofs.
--
-- internal/kv: the key-value store of the agents.
--   Kv, Kv/Store: the statements and the methods of store.go. The driver and the clock are a
--     parameter, Env.
--   Kv/Counts, Quota, Values, Locks: proofs.
--
-- internal/security: Security is permissions.go, the tiers of permission; Security/Tiers has the
-- proof.
--
-- internal/skill: Skill is trigger.go, match.go and merge.go; Skill/Merged has the proof. A skill's
--   fields that matching does not read are left out.
--
-- Prelude holds what they share: Boolean tests, lists, maps and texts. Texts are lists of code points;
-- Go's are bytes, and the functions used here (TrimSpace, CutPrefix, CutSuffix, Index of an ASCII
-- text) agree on both for valid UTF-8. But for the two loops above,
-- no definition takes fuel: all recursion is on lists, texts and counts of attempts. Numbers (ids,
-- times in nanoseconds) are unbounded, except where the code comes near 64 bits: the delays of
-- retries and the steps of cron fields wrap.
--
-- Not modelled: the other packages, which are listed with the reason in the manifest; opening and
-- migrating databases; the text of error messages and logs; listing calls, which only read;
-- interleavings inside one call, of which SQLite's transactions exclude those of the task package.
-- In the approval package, a call of another goroutine between two statements of one call is not
-- covered.
pub mod Prelude
pub mod Task
pub mod Approval
pub mod Llm
pub mod Scheduler
pub mod Kv
pub mod Security
pub mod Skill
