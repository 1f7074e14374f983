-- ===== src/Tests.antt =====
-- Runs of concrete programs, and the theorems at concrete inputs.
pub mod Fixtures
pub mod Processor
pub mod Host
pub mod Os2
pub mod Debugger
pub mod Disassembler
pub mod Window
