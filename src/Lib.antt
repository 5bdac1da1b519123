-- ===== src/Lib.antt =====
-- Verification of the decision logic in the TypeScript code of the L4 IDE.
--
-- The program helps people write and run legal rules in L4. A rule is shown as a ladder diagram
-- of its boolean expression; answers to its inputs come in one by one, the evaluator says what
-- the rule gives so far, and a decision diagram says which inputs still matter. An AI agent
-- edits L4 files for the user, in the editor or in the cloud. This library models the parts of
-- the TypeScript code that decide; screens, networks and files are left out.
--
-- The parts, the files here that model them, and the code:
-- - Prelude and its children: lists, maps as association lists in insertion order, calls that
--   may throw.
-- - Digits: the decimal texts of numbers. Doubles: the language's numbers, as far as they are
--   whole and not negative, with their rounding and their texts.
-- - Expr: the expressions of ts-shared/viz-expr/viz-expr.ts, and their two-valued meaning
--   `truth`, which is the specification of the decision diagram and of the evaluator.
-- - Robdd and its children: the class `ROBDD` of ts-shared/boolean-analysis/src/robdd.ts. `Bdd`
--   is its four tables; `mk`, `neg`, `apply`, `restrict` and `support` carry the names of the
--   methods and use the memo tables as the methods do. Robdd.Store and Robdd.Validity say when
--   the tables are valid, and each operation has a file of lemmas.
-- - DecisionQuery and its children: `collectVarOrder`, `compileDecisionQuery` and the query
--   object of ts-shared/boolean-analysis/src/decision-query.ts, over the tables of Robdd as
--   state.
-- - Ladder and its children: ts-shared/l4-ladder-visualizer/src/lib/eval. Assignment is the
--   sparse array of values, Eval is the evaluator, Partial holds the functions of
--   partial-eval.ts, and Analyzer the class, which compiles the expression with DecisionQuery
--   and queries it at each analysis. Override is query-plan-override.ts, Ranking the order of
--   its lists, and Asks what the ladder shows of the planner's answer.
-- - Pending and its children: approvals and questions of
--   ts-shared/legalese-agent/src/pending-interactions.ts, with promises numbered and their
--   resolutions as a log.
-- - Permissions and its child: ts-shared/legalese-agent/src/permissions.ts.
-- - Edits and its child: the state of ts-shared/legalese-agent/src/edit-guard.ts, and the
--   comparisons of ts-shared/legalese-agent/src/tools/lsp.ts.
-- - Commands and its children: the command queue of ts-apps/cloud-agent/src/command-reader.ts.
--   Commands has the operations where every write succeeds, Failing those where one may fail,
--   Files what the files' contents mean. Advance, Handled and Through say what reports do,
--   Faults what a failing write changes, Delivery, Polling, Tries and Throws what a poll does,
--   Written and History what a run of operations keeps, Restart and Queued what becomes of the
--   commands after it.
-- - Lease and its child: the write fence and the run lease of ts-apps/cloud-agent/src/lease.ts.
-- - Graphs and its children: the graphs of
--   ts-shared/l4-ladder-visualizer/src/lib/algebraic-graphs. Graphs has the maps of
--   base-adjacency-map.ts and adjacency-map-directed-graph.ts, Graphs.Dag the expressions of
--   dag.ts, each node with the maps that its constructor computed. Graphs.View reads a map as a
--   relation, Build, Laws, Bind and Loops say what the operations do to it, Sound has the
--   invariant, Paths, PathGraphs and Labels the search for paths.
-- - Protocol and its children: ts-shared/legalese-agent/src/protocol. Protocol has the JSON
--   values, Validate the checks of validate.ts, Patterns the patterns of common.ts, events.ts
--   and files.ts, Events the check of an event in events.ts, with a table of the shapes that
--   `payloads` declares, Commands the checks of commands.ts and sealed.ts and the object that
--   ts-apps/cloud-agent/src/dev.ts stores. Settled, Objects, Spread, Variants, Tagged and Reader
--   say what a check returns for a value that it has returned, Declared which fields it drops,
--   and Stored what becomes of a client's command. Chunks is `parseEventChunk` of events.ts, and
--   Chunked what it finds in pieces of a log. Numbers is the texts of command numbers and
--   cursors in files.ts, and Printed what is read back from them.
-- - EventLog and its children: ts-apps/cloud-agent/src/event-log.ts. EventLog is the queue in
--   memory, Disk the files and the calls on them, Steps the timers and the runs of a write as
--   inputs of a step function, Recovery the method `open`, Opens when it throws, and Reopen what
--   it finds. Rules has the rules for sequences of calls, Segments, Lines, Writes and Publish
--   say what a write does, Stream, Delivers, Turns, Delivery, Faultless and Flush what becomes
--   of the events. Shrink is `shrinkField`, Notes, Halving and Attempts what it keeps and how
--   often it is called, Valid and Readable what a reader's check makes of the events, and
--   Bounds, Bounded and Limits the sizes of the segments.
-- - Deontic and its children: the interpreter of contracts in jl4-mlir/runtime/jl4-runtime.mjs,
--   `runDeontic` and the functions it calls. Deontic has the values and guards, Run the walk
--   over a contract, Sorted what its sort and its cursor keep.
-- - TextPositions and its children: ts-shared/legalese-agent/src/text-positions.ts, with the
--   binary search of `positionAt` in Search.
-- - Examples: the theorems at concrete inputs.
--
-- Numbers are natural numbers: ids, uniques, counts and times in milliseconds are integers that
-- are not negative, and a difference that could be negative is written as a sum or stops at 0
-- where that is the same. An `IRId` object is a number that stands for its identity.
--
-- Fuel: the recursive methods of `ROBDD` take one more unit than the ids they start from, which
-- is enough since the children of a node have smaller ids than the node; the theorems say that
-- the calls return. The loop of `markHandled` takes a number out of its list in each round, so
-- the length of the list is enough, and the loop of `poll` delivers a number in each round that
-- goes on. The search for the paths of a graph takes more fuel than a rank that falls along each
-- edge gives its first vertex. The binary search of `positionAt` takes as much as there are
-- lines. `validated` counts its attempts down from the 24 of the code, and the digits of a
-- note's number take one more step than the number.
--
-- Parameters: the language server's answer to `evalApp` is an argument of the evaluator. What
-- run records and leases hold, what the files of the command queue hold or which error opening
-- one gives, the size of a text's file, what `JSON.parse` makes of a text, whether a write
-- succeeds, and the clock are arguments of the calls. The topological sort is graphology's. The
-- override takes the lookups of an atom's uniques in the ladder graph. The contract interpreter
-- takes what `Number` makes of a value. The reader of a log takes what a line's bytes are:
-- blank, no JSON, or a value. The event log takes the text of a value's JSON, the length of an
-- event's line, the time at which an event is checked, and the faults of the calls on the disk.
--
-- Not modelled: the texts for the user, the tests on strings in permissions.ts, decoding of
-- JSON, the session's files and the API of the protocol, log messages of the event log, the
-- printing and the disposal of graphs, the wire form and the trace of a contract's answer, the
-- concurrency of promises within one evaluation, and a variable without a value in the evaluator
-- after its first use. The runner of the cloud agent, its chat service and its tools, which call
-- the parts above, are not modelled either. The language server, the compiler and the services
-- are in Haskell; layout, editor and browser code has no decisions of its own.
pub mod Prelude
pub mod Robdd
pub mod Expr
pub mod DecisionQuery
pub mod Ladder
mod Examples
pub mod Pending
pub mod Permissions
pub mod Commands
pub mod Lease
pub mod Edits
pub mod Graphs
pub mod Protocol
pub mod Digits
pub mod Doubles
pub mod EventLog
pub mod Deontic
pub mod TextPositions
