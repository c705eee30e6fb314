-- ===== src/Ring.antt =====
-- The rings, which say on what peers a block lives: package ring. `Types` has the data, `Mod` and
-- `Ketama` the two rings with placement code of their own, `Calls` the interface `torus.Ring` over
-- all kinds; the proofs stand in `Targets` and `Changes`.
pub mod Types
pub mod Mod
pub mod Ketama
pub mod Calls
pub mod Targets
pub mod Members
pub mod Changes
mod Checks
