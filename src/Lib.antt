-- ===== src/Lib.antt =====
-- ahl-mirror: a mirror of an append-only hash log. It stages signed entries, promotes them to canonical
-- storage under proof, admits the log's checkpoints, follows the governance that the entries carry,
-- and serves entries, ranges, proofs and the state of the checkpoint series.
--
-- Parts and files (source paths are from the repository's root):
-- - Prelude: lists, byte strings, Boolean tests and Rust's integer operations over native numbers.
-- - Error: `MirrorError` and `MirrorResult` of src/error.rs.
-- - Deps: the crates that the code calls (sha2, hex, serde_json, atl-core, ahl-core, ed25519-dalek,
--   time), a record of parameters with the laws that the code relies on. A proof or root builder of
--   atl-core is a walk that asks for tree nodes. The range proofs of ahl_core::range_proof are the record
--   `RangeProofs` of Range.
-- - Metadata: src/metadata.rs.
-- - Store: src/store.rs. Schema has the tables, Exec the code that runs on a connection and
--   transactions, Rows the queries, Nodes the subtree cache, Entries staging and promotion, Reads the
--   reads and the builders over them, Checkpoints the two checkpoint tables. Tree says what a valid
--   store is, Promotion proves promotion. Migration is `migrate`: the backfill of leaf hashes and the
--   rebuild of the subtree cache.
-- - Ingest: src/ingest.rs (`stage_entry`, `promote_entry`, `promote_entry_in`); History runs
--   requests, Serving follows them to what is served.
-- - Retrieval: src/retrieval.rs.
-- - Range: src/range.rs (`outside_subtrees`, `build_range_response_in`, `verify_range_response`).
-- - Duration: src/duration.rs; Written is the grammar of durations, Roundtrip reads it back,
--   Prohibited has the refused units. Config: src/config.rs.
-- - Manifest: src/manifest.rs. State is `GovernanceState`, Parse one statement, Walk the entry prefix.
-- - Series: src/checkpoint.rs. Time, Signature, Usable, Divergence, Frontier and View are the reading
--   side, Admit is `ingest_checkpoint`.
-- - Http: src/http.rs. Wire has statuses, bodies and `into_response`, Entries, Series and Proofs the
--   handlers, Router the routes. A request comes as the typed value that axum and serde parse, and a
--   handler is code on a connection. Ledger is the abstract view of the tables, Steps the step relation
--   of single holds of the store's lock, which covers requests that interleave; the other children
--   follow requests to their responses.
-- - Tests: a small concrete instance of the dependencies, and the theorems at concrete inputs.
--
-- How the code is modelled. A database is a record of tables, a table the list of its rows in the order
-- of insertion. Code on a connection takes a database to a result and a database; what was written
-- before an error stays written, unless `with_transaction` takes it back. A string is its bytes. A
-- `u64` is a natural number with the source's checked operations written out; an integer column holds
-- the natural numbers up to `i64_max`, which `to_i64` lets in. A `HashMap` of keys is a list in which
-- each id stands once. The names of dependencies stay as the source has them.
--
-- Fuel: `climb` (the loop of `extend_subtree_cache`) takes the 63 levels that the source's loop has;
-- `outside_subtrees` takes one more than the number of leaves, and every call is on fewer leaves than
-- the one above it; `extend_prefix` takes one round for each element of the overlay, each of which it
-- uses at most once; the backfill takes one round more than there are rows, and every round fills one;
-- `fold_levels` takes the 63 levels of the source's bound, and `population` the 63 widths below 2^64;
--   `decimal` takes the 20 digits of a `u64`.
--
-- Not modelled: SQLite's own failures, opening a database file, locking and poisoning of the
-- connection, the web crates' parsing of requests and a blocking task that panics, the constant texts
-- of bodies and error messages, the program's entry point, and `RangeReadCost`, which only counts.
pub mod Prelude
pub mod Error
pub mod Deps
pub mod Metadata
pub mod Store
pub mod Ingest
pub mod Retrieval
pub mod Range
pub mod Duration
pub mod Config
pub mod Manifest
pub mod Series
pub mod Http
pub mod Tests
