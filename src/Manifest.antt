-- ===== src/Manifest.antt =====
-- src/manifest.rs: the verified governance chain. `State` is a snapshot, `Parse` reads a manifest's
-- content, `Walk` applies the statements of an entry prefix in order.
pub mod State
pub mod Parse
pub mod Walk
pub mod Statements
pub mod Chain
