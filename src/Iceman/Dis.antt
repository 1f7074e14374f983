-- ===== src/Iceman/Dis.antt =====
-- The disassembler, `iceman/dis.c`: its name tables and what it keeps. The code bytes are a function
-- of the address. Its children print addresses, operands and lines.
pub mod Names
pub mod Address
pub mod OpCode
pub mod Operands
pub mod Lines
pub mod Rounds
pub mod RowLengths
pub mod Prints
pub mod Complete
pub mod Total
pub mod Listing
pub mod OperandBuffers
pub mod Buffers
pub mod Displacements
pub mod Lengths
pub mod OperandLengths
