-- ===== src/Http.antt =====
-- src/http.rs: the handlers over the library's operations. `Wire` has statuses, bodies and requests,
-- `Entries`, `Series` and `Proofs` the handlers, `Router` the routes.
pub mod Wire
pub mod Entries
pub mod Series
pub mod Proofs
pub mod Router
pub mod Ledger
pub mod Growth
pub mod Steps
pub mod Responses
pub mod Serving
pub mod Usable
pub mod Rotations
pub mod Latest
pub mod Refusal
