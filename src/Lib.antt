-- ===== src/Lib.antt =====
-- Goncho, a local memory service for agents, written in Go: the parts that decide what is stored,
-- who may act on it, when work is scheduled, what a search lets through, and what is sent out or
-- asked of a provider. Each definition follows one function of the source and keeps its name, its
-- guards and the order of its calls.
--
-- The parts and their files
-- Leases: service/action_leases.go, with service/action_scope.go and service/server_mode.go.
-- Agents of a team take leases on the actions of service/action_graph.go. `Table` has the SQL
-- tables of the leases and of their audit, each statement a function that may fail; `Rows` the
-- lemmas on a table with one row for a key; `Params` the parameters; `Service` the operations AcquireActionLease,
-- RenewActionLease and ExpireActionLeases, one transaction each. A transaction that does not
-- commit returns the tables it began with. A `Call` is one operation with its time, its
-- parameters and the statements that fail in it, so a list of calls is any interleaving of the
-- agents, as the source keeps one connection to its database.
--
-- Actions: service/action_graph.go, the actions that the leases are on. `Store` has UpsertAction,
-- CompleteAction and SignalAction, which run their statements on the three SQL tables (`Tables`) without
-- a transaction; `Steps` has series of them. `Store.Texts` cleans the dependencies of a
-- request; its child modules have what is left of them and their order. `Graph` has ReadActionGraph, which lists the actions
-- of a scope with their dependencies and signals. The frontier (`Frontier`) is what can be worked
-- on, and its first node the next action (`Progress`). `Graph.Sound` has what holds of the rows
-- after every series of operations, `Graph.Contents` and `Graph.Answers` what a graph holds, `Graph.Next` and
-- `Graph.Rounds` how a caller comes to the end of the work. The receipts of signals are not modelled.
--
-- Slots: service/memory_slots.go, named values of a peer with their revisions. `Table` has the rows and
-- the statements, `Slots` the operations, `Calls` and `Targets` what one of them writes, `Histories`
-- any series of them. The observation log that is told of each change (service/observations.go) is any
-- function that may fail.
--
-- Snapshots: service/snapshots.go, the comparison of two snapshots of what is remembered: `Entries`
-- has the maps by key, `Difference` what the comparison says of a key.
--
-- Proposals: internal/skillproposals/proposals.go, drafts of skills that are submitted and reviewed.
-- `Reviews` is one review, `Histories` any series of submissions and reviews.
--
-- ScopedKeys: internal/scopedkey/scopedkey.go, signed keys for a workspace, a peer or a session. `Tokens`
-- has the cut of a token at its dots, `Keys` creation and verification.
--
-- SearchFilter: internal/searchfilter. A JSON filter of a request becomes an expression
-- (`Grammar`), the expression what the search index can enforce (`Compiler`), with the values
-- normalized by `Values`; `Requests` composes them, and `Limit` bounds the number of results.
-- `Compiler.Meaning` and `Requests` state what an expression and a JSON filter mean for a message
-- of a session and a source, which the compiled filters are compared with.
--
-- Dreams: internal/dreamscheduler/scheduler.go, the schedule of background consolidation.
-- `Table` has the SQL tables and statements, `Eligibility` what they say of a peer, `Scheduler`
-- Schedule and CancelPendingForObserved, `Evidence` what these report. They run one after the
-- other, in any order (`Run`).
--
-- WriteQueue: writequeue/write_queue.go and writequeue/relations.go. Writes of memories go
-- through one lock; relation candidates are detected after the write. `run` is a series of calls
-- of Cancel and Submit, and `Inflight` the calls of Cancel that arrive while a write waits for the
-- store.
--
-- PluginRuntime: internal/pluginruntime. `Writer` is asyncwrite/writer.go, `Router` is
-- writerouter/router.go, which chooses by the write frequency whether a session goes to the writer,
-- to the flusher at once, or waits. `Frequency` is writefrequency/frequency.go, which reads that
-- frequency from the configuration. `Writer.Races` runs FlushAll with the calls that arrive between
-- its two critical sections.
--
-- Webhooks: internal/webhooks. `Events` has the payload, its signature and the redaction of
-- URLs, `Delivery` one delivery with its retries, `Worker` the loop over the endpoints.
--
-- Endpoints: internal/webhooks/endpoints and internal/webhooks/urlpolicy, the table of the endpoints.
-- `Rows` has the rows and the statements, `Table` is what a creation does, `Calls` any series of creations and deletions, `Policy` which
-- URLs are registered, `Reuse` a creation that is made again.
--
-- Breaker: service/provider_resilience.go and service/internal/providerpolicy. The circuit breaker in
-- front of an embedding, extraction, reranking or summarization provider. `Events` is any
-- interleaving of the calls as the critical sections of the breaker one after the other, `Calls` one
-- call of Execute with nothing else running, `Registry` the breakers by name with the diagnostics and
-- the warnings made of them, `Diagnostics` any series of calls through the registry.
--
-- Prelude: what the parts share: Boolean tests and their lemmas, lists (`Lists`, `Quantifiers`), sorting
-- (`Sort`, for sort.Slice and ORDER BY), dictionaries, results,
-- and Go's strings.TrimSpace. Its `Int` is the part of Go's signed integers the code looks at.
--
-- How the model corresponds to the code
-- A mutated object is passed on as a record with the fields of the struct, and the error of a Go
-- result is a value of `Result`, an Option or a sum.
--
-- What stands behind an interface of the source or in another library is a parameter: the memory
-- store, the detector and the relation store of the write queue, the flusher of the writer, the
-- HTTP client and the store of the webhooks act on an external state `W` by functions that are
-- given; so are strings.ToLower, fmt.Sprint, JSON encoding, base64, HMAC, the format of times, and
-- the parsing of URLs and addresses. Nothing is assumed of them beyond what a theorem lists.
--
-- SQL statements are functions on lists of rows, written after the text of the statement. Which
-- of them fail is a parameter.
--
-- A map of Go is an association list. The order in which Go ranges over a map is unspecified: the
-- list is one such order.
--
-- Numbers are natural numbers. Where the source has a signed integer that may be negative, the
-- model has an integer; where it can overflow, the bound is written out (the end of a lease, the
-- backoff); counters are not bounded. Instants are counted from 1970 on, in the unit of the code.
--
-- No function runs on fuel: every loop of these parts ends by structural recursion on a list, a
-- number or an expression.
--
-- Not modelled
-- The recall and ranking pipeline of service/ and importance scores, which compute with floats.
-- The HTTP and MCP servers and the commands under cmd/, which decode requests and print.
-- The other SQL stores of service/ and memory/, the export of snapshots, file import and export, the
-- lists that only read a table, and the benchmark code.
-- Cancellation by a context, which the modelled code only passes on, and a nil receiver or
-- database, for which the source returns an error at once.
pub mod Actions
pub mod Breaker
pub mod Dreams
pub mod Endpoints
pub mod Leases
pub mod PluginRuntime
pub mod Prelude
pub mod Proposals
pub mod ScopedKeys
pub mod SearchFilter
pub mod Slots
pub mod Snapshots
pub mod Webhooks
pub mod WriteQueue
