-- ===== src/Exec/Keeps.antt =====
-- Every handler keeps the step invariant, from the bus up.
pub mod Data
pub mod Stack
pub mod Compute
pub mod Effects
