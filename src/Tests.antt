-- ===== src/Tests.antt =====
-- A concrete instance of the dependencies, and the theorems at concrete inputs.
pub mod Toy
pub mod Data
mod Entries
mod Checkpoints
mod View
mod Http
mod Range
mod Migration
mod Reading
