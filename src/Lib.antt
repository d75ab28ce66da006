-- ===== src/Lib.antt =====
-- SignalLedger, a research-to-portfolio platform: PDFs become page-cited claims, reviewed claims become
-- immutable strategy versions, and paper backtests of those versions propose a ranking of candidates.
-- The Go part owns all durable state: an HTTP API and a worker share a PostgreSQL store, and the worker
-- runs queued jobs with the help of a stateless Python service. This library models that Go part.
--
-- Domain (internal/domain): the records, Extraction.Validate, CreateBacktestInput.Validate,
-- CandidateSet.Validate and CandidateFilter.Normalized.
--
-- Strategies (internal/strategies): Themes is the catalogue of builder.go and ClaimSymbols; Signals is
-- BuildSignals of signals.go; Spec and Universe are spec.go; Builder is BuildDraft of builder.go; Service
-- is Create, and Service/Draft is Draft, of service.go. A Go map that is used as a set is the list of its
-- keys, another one an association list; sort.Slice is any function that permutes and orders.
--
-- Store (internal/store): Tables has the rows, and each statement is a function on them with what its
-- constraints refuse written out: unique columns, foreign keys, ON DELETE CASCADE and RESTRICT. An
-- operation returns a result or an error; a transaction that fails has no new state. Jobs is the queue
-- of store.go (insertJob, LeaseNextJob, CompleteJob, FailJob, retryDelay), whose interleavings by many
-- workers are the step relation of Jobs/Lifecycle and the histories of Jobs/Exclusive and Jobs/Crashes; Documents, Documents/Replace are the rest of
-- store.go; Strategies is strategies.go with claims.go; Backtests is backtest.go; Snapshots is
-- marketdata.go; Listings has the queries that return lists, and Candidates is candidates.go.
--
-- Quant (internal/quant): the client of the Python service. Quant itself has the exchange of a request for
-- a response that client.go and client_backtest.go repeat in each call; Extracting and MarketData are the
-- rest of client.go, Backtests is client_backtest.go.
--
-- Documents (internal/documents): Storage is storage.go on a disk, which is the list of its files; a
-- schedule of faults decides which calls of the operating system fail. Upload is service.go, over the
-- disk and the tables, where the answer to Commit may be lost. A reader is the list of the pieces that its
-- reads return.
--
-- MarketData (internal/marketdata): MarketData itself has validateRequest and CanonicalCSV, Files is the
-- SnapshotStore of storage.go and the ArtifactStore of internal/backtests/storage.go, which is the same
-- code, and Snapshots is service.go, over the tables and the disk.
--
-- Worker (internal/jobs/worker.go): runOne, process and the processors, as functions that pass the
-- tables on. A schedule of faults decides which calls of the store fail for reasons of their own; such a
-- call changes no table.
--
-- Http (internal/httpapi): the responses and validUUID of server.go, Claims for the two handlers of
-- claims.go, and Backtests for the one of backtest.go that creates a run. A handler turns a request into a
-- response and a change of the tables.
--
-- Parameters: what no code of the repository defines. Floating point (Prelude/Float), PostgreSQL's
-- casts, encodings and rounding (Store/Postgres), sorting (Prelude/Sorting), JSON encoding and decoding,
-- the HTTP transport, path/filepath and SHA-256 (Documents/Storage), the ids and times that the database
-- and the clock supply, and the services that the worker calls. Ids are texts in
-- PostgreSQL's spelling, with small letters; one that is not a UUID, which PostgreSQL refuses, is one
-- that no row has. Every loop is structural
-- recursion, so no fuel is used.
--
-- Not modelled: the other HTTP handlers, the routing, configuration and start-up, and the endless loop
-- around runOne. Of the transactions only the one of an upload may be committed and report an error. Times
-- are in nanoseconds throughout, where PostgreSQL keeps microseconds. A size is a number without the bound
-- of int64. The Python service is another program.
pub mod Prelude
pub mod Domain
pub mod Strategies
pub mod Store
pub mod Quant
pub mod Documents
pub mod MarketData
pub mod Worker
pub mod Http
pub mod Examples
