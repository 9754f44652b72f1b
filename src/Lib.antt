-- ===== src/Lib.antt =====
-- The indexer of pulsar-app: it polls the contracts that are registered through a Stellar RPC server,
-- decodes their events, stores them in SQLite or Postgres, and serves them page by page.
--
-- The parts and how they interact. The poller reads a contract's progress from the contracts store,
-- drains the server's pages from the ledger after it, decodes each event with the decoder, and writes
-- the batch and the new progress in one transaction of both stores. A client reads the events through
-- the events store's Query, whose parameters the validators have checked; what fails is reported with
-- a code of the error catalog. The tables are made by the migrations, on a database whose driver has
-- been resolved. The HTTP service mounts the handlers behind a chain of middleware and, where they
-- write, behind a token and a rate limit; the GraphQL resolvers read the same stores. The daemon is
-- configured by its environment, started stage by stage, and stopped by a signal.
--
-- The files, with the code that each models (paths from the repository's root):
--   Base: Go's lists, strings (as lists of bytes), integers, (value, error) pairs, and sorting.
--   Strconv: strconv.ParseInt and FormatInt in base 10, with their round trip.
--   Validate: indexer/internal/validate. EventLimit is event_limit, and so on.
--   ApiError: indexer/internal/apierror. The map registry is an association list.
--   Decoder: indexer/internal/decoder/decoder.go. Value has DecodedValue and MarshalJSON, Decode has
--     Decode, DecodeBase64 and DecodeTopics, Unmarshal has UnmarshalJSON, Wide the wide integers.
--     Xdr is the interface of the XDR library, a parameter.
--   Store: indexer/internal/models and indexer/internal/store. Db is the two tables. Contracts has the
--     operations of contracts.go, Events has Insert and Get, Query has Query and buildEventsQuery,
--     Columns has the columns of a row: scanEvent, scanContract, scanTime and the raw topics.
--   Rpc: indexer/internal/rpc. Caller is the interface of the server, which Client fills; Assemble has
--     assemble, Transaction has commit, Poller has tickOnce, drain and handleRangeError, and Backoff
--     has nextBackoff and the waits of run.
--   Migrations: indexer/migrations/migrations.go.
--   Database: indexer/internal/db. Driver has Resolve, Open has Open and the DSNs, Split has
--     SplitStatements, Migrate has Up, Down and Version.
--   Api: indexer/internal/api/handlers.go, each handler; Request has parseEventQuery, Paging a
--     client of the route for events, Served joins the handlers with the poller's commit.
--   Config: indexer/internal/config/config.go, the readers of one setting. Load has Load, in stages.
--   Http: indexer/internal/api/response.go and the responseRecorder of middleware.go. Chain has the
--     middleware around every request, Auth has authz.go, Routes has server.go and router.go.
--   Graphql: indexer/internal/api/graphql.go. The resolvers are resolve_health and so on, Views has
--     the fields of the result types, Handler has handleGraphQL.
--   Startup: indexer/cmd/pulsar-indexer/main.go and indexer/internal/logger. start is run up to
--     the poll loops, Shutdown is the rest of it.
--   Indexing: indexer/internal/rpc/events.go over time. A Step is what may happen to one
--     contract: ledgers close, a tick reads the events from its start on, a tick whose start is below
--     the server's floor skips to it, a tick leaves the tables as they are (a call or the health of
--     the server fails, a start is rejected inside the window or past the tip, progress is not read),
--     the contract or another is registered, or another contract's events are committed. The ledgers
--     that were skipped are kept beside the tables, as the warning of handleRangeError has them. The
--     deletion of a contract is outside of it, and so is a drain that a server answers whole but not
--     as ADR-028 has it. Idle has the ends of a tick that change nothing; Served and Listed have the
--     reads of indexer/internal/api/handlers.go in the states that are reached.
--   Interleaving: the daemon at work. A Step is a request, a tick of any contract, or a
--     registration at startup, on the tables that they share.
--
-- How state is passed. An operation takes the tables and gives its result with the tables after it.
-- What the engine did with each statement is an argument (Outcome): it ran, it was refused with no
-- effect, or it ran and its report was lost. A transaction's steps each have their outcome
-- (TxOutcome); a rollback restores the rows but not the sequence of a Postgres key. A SELECT is a
-- value with numbered placeholders and arguments, and run_select is the engine's reading of it. What a
-- handler does to its response is a list of calls of the response writer. A handler's run has a list
-- of calls, an ending, which may be a panic, and the state after it, so that the middleware's laws
-- hold of every handler. The shutdown is a step relation, since the scheduler chooses who runs; the steps
-- that come from outside (a signal, a failing listener, a call that times out) are told apart from
-- the daemon's own.
--
-- The server's paging. Pages, in Rpc/Poller/Drain, has what the indexer takes from ADR-028 and from
-- indexer/internal/config/config.go: a limit from 1 to 10000, pages by the cursor, a cursor that stands
-- after the last event of a page that has events, and nothing of the text that an empty page carries.
-- The window that is paged through does not change during one drain.
--
-- The standard library. A header's key is stored in its canonical form, a status from 100 to 199 but
-- 101 is sent at once and is not the response's, and a text in JSON has U+FFFD for a byte that is not
-- UTF-8.
--
-- Bounds and fuel. int64 and int parameters are integers; ParseInt bounds what is read, and where the
-- code adds one to a ledger the overflow is written out (start_of); a Duration and an int32 wrap
-- (wrap). The decoder recurses on fuel, one more than the depth of the value, which the library's laws
-- make enough (decode-eq). The loop of drain has fuel in turns, and so has the client that follows
-- cursors: the theorems give how much is enough.
--
-- Not modelled: log lines but for the logged status, the text of an envelope (its encoder is a
-- parameter), the choice that chi makes among the routes (a parameter), the execution of a GraphQL
-- document (a parameter), the SDL text of its schema, SHA-256 and the token bucket (parameters),
-- the reading and printing of a time in a layout (parameters), the closing of handles and
-- connections, the texts that only stand in errors, the version constant, and the TypeScript
-- packages. Where Go iterates over a map whose order is not fixed, the order here is that of the
-- first insertion, which decides only which of several errors is reported.
pub mod Base
pub mod Strconv
pub mod Validate
pub mod ApiError
pub mod Decoder
pub mod Store
pub mod Rpc
pub mod Migrations
pub mod Database
pub mod Api
pub mod Config
pub mod Http
pub mod Graphql
pub mod Startup
pub mod Indexing
pub mod Interleaving
