-- ===== src/Decode.antt =====
-- Decoding in `maverick/run386.c`: the ModR/M byte, the operands, and the two opcode groups whose
-- row is completed by the reg field.
pub mod Fetch
pub mod ModRm
pub mod Operands
pub mod Fixup
pub mod Keeps
pub mod Advance
