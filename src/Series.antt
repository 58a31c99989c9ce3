-- ===== src/Series.antt =====
-- src/checkpoint.rs: checkpoint times, the signed blob and its verification, the series of
-- checkpoints with its gap-free frontier, and the admission of a checkpoint.
pub mod Time
pub mod Signature
pub mod Divergence
pub mod Usable
pub mod Frontier
pub mod View
pub mod Admit
