-- ===== src/Lib.antt =====
-- The parts of oscillink_agent that decide what an agent may remember, read and cite, as functions
-- on explicit state, with the theorems about them.
--
-- The program keeps three SQLite databases. The memory repository holds records, their revisions, the
-- log of reviews and the bindings of synchronized notes. The event ledger is append-only. The
-- capability broker holds grants, which a human approval in the ledger authorizes. Retrieval reads the
-- records of the repository and ranks the approved ones for a query; the context compiler selects the
-- ranked evidence under a token budget and builds a manifest, whose contract checks it again. The MCP
-- server offers recall, explanation and proposals to a model; what it writes are candidates, which only
-- a review can approve. Proposals to associate artifacts are events of the ledger, and so are the
-- decisions on them.
--
-- Base: shared helpers. Tests decides orders on numbers, Equality decides equality, Lists has the
--   queries of a table in insertion order (select, select_one, select_latest), Outcome has actions,
--   which return or raise together with the state they leave, and transactions, which restore it.
-- Domain: the identities, enumerations and events of src/oscillink_agent/domain/events.py. Identifiers
--   has the patterns, Tokens the Crockford tokens of `_new_record_id` and `_derived_id`, Json the
--   bounded payloads (freeze_bounded_payload), Events the validators of Event.
-- Memory: src/oscillink_agent/memory/repository.py. Types has ProductMemoryRecord, Store the tables and
--   the reads, Write `create_native` and the writes of rows, Review `review`, Sync the loop over the
--   notes of `sync_obsidian` and Snapshot the rest of it; Governance puts the calls in sequence.
-- Retrieval: src/oscillink_agent/retrieval/service.py, with Lexical for the terms and the score.
-- Context: src/oscillink_agent/domain/context.py, and in Compiler src/oscillink_agent/context/compiler.py.
-- Ledger: src/oscillink_agent/storage/sqlite.py under the constraints of migrations/001_events.sql.
-- Capabilities: src/oscillink_agent/capabilities/broker.py, with Reads for `execute_file_read`.
-- Recall: `_recall` of src/oscillink_agent/integrations/mcp/server.py, over Retrieval and Context, with
--   the clock that it reads off a request identity.
-- Mcp: the rest of that server. Mcp itself has the contracts, Explain and Propose the tools, and Server
--   the validation, the dispatch and the answer to a call that raises; a session is a list of calls.
-- Proposals: src/oscillink_agent/proposals/repository.py, the projection of the ledger, and in Decisions
--   `decide_memory_proposal` of src/oscillink_agent/proposals/service.py.
-- Artifacts: src/oscillink_agent/storage/artifacts.py: `get` and the publication of content that `put`
--   and `put_stream` share. The loop over a stream has its byte limit and two as fuel: every read but
--   the last returns at least one byte, and one more than the limit ends it.
-- Migrations: src/oscillink_agent/storage/migrations/__init__.py; a step of a migration is a function on
--   the database that may raise.
-- Evaluation: src/oscillink_agent/evaluation: the contexts of a case under their budget, in Scores the
--   metrics of an answer, with a float as a pair of numbers, and in Runs `run_suite` over an executor.
-- Projection: the views of stored records in src/oscillink_agent/memory/projection.py.
-- Tests: the theorems applied at concrete inputs.
--
-- Conventions. A table is the list of its rows, oldest first, and a JSON column of the repository is
-- the record that it encodes. A time is a number of microseconds. A call is an action on its state; a
-- raise in a transaction restores the state. The randomness of `secrets.token_bytes` is an argument.
-- Loops over sequences are structural recursions; only the loop over a stream takes fuel. Tokens have
-- twenty-six rounds, as in the source. Code of libraries is a parameter: str.casefold, the JSON of
-- pydantic, SHA-256, the check of the references of an event, the suffix of a path, the file system and
-- the executor of an evaluation. Where a theorem needs that JSON reads back what it wrote, that is a
-- hypothesis of it.
--
-- Not modelled: opening databases, checks of Python types at run time, which
-- hold by typing, the snapshot registry of FrozenModel, because values are immutable here, and the
-- parts that are routing, network or file input around these: the HTTP application, model providers,
-- imports, workspaces, the loading of an evaluation's files, the index of notes and the agent runtime.
-- In the context manifest the inclusion reason is left out, as a text that rank and score determine.
pub mod Base
pub mod Domain
pub mod Memory
pub mod Retrieval
pub mod Context
pub mod Ledger
pub mod Capabilities
pub mod Recall
pub mod Mcp
pub mod Proposals
pub mod Artifacts
pub mod Migrations
pub mod Evaluation
pub mod Projection
pub mod Tests
