-- ===== src/Exec.antt =====
-- The instruction handlers of `maverick/run386.c`. A handler's C result is 0 or missing and is
-- not used, so it returns `Unit`.
pub mod Operand
pub mod Stack
pub mod SetFlags
pub mod Alu
pub mod AluSpecial
pub mod Jump
pub mod Moves
pub mod Strings
pub mod Interrupt
pub mod Keeps
