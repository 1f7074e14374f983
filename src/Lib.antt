-- ===== src/Lib.antt =====
-- Verification library for TOPGUN, an emulator of the 80386 with a debugger and an OS/2 loader.
--
-- The program's core is the processor: `common/i386.h` holds the instruction tables, the state of
-- the processor and the flag macros, `maverick/run386.c` the decoder and the handlers of the
-- instructions. `maverick/main.c` plugs it into a megabyte of memory, loads a program, runs it and
-- answers a debugger; `locutus/` hosts the same processor for OS/2 programs, and `iceman/` is the
-- debugger's client with a disassembler.
--
-- Which file models which part:
-- - Common: arithmetic, Boolean tests, bits of a number, the casts of C and arrays as functions.
-- - Isa: the vocabulary of `common/i386.h`, `InstructionTable` and `ExtendedInstructionTable` row
--   by row (Isa/Table), and `i386_parity_table` (Isa/Parity).
-- - Machine: `i386`, with memory, keys and output beside it; what a piece of C comes to
--   (Machine/Outcome); the bus functions of `maverick/main.c` over a board (Machine/Board);
--   GET_FLAG and COND_FLAG (Machine/Flags); the unions of the registers (Machine/Regs).
-- - Decode: `decode_rm_16`, `decode_rm_32`, `decode_sib`, `decode_operand`, `fixup_f6`, `fixup_ff`.
-- - Exec: `read_source`, `write_dest` and one function for each `do_` handler of
--   `maverick/run386.c`, under its name.
-- - Step: `i386_step`, with the switch over prefixes and the one over operations.
-- - Maverick: the board, `init_386`, loading, `ice_step`, `Exec386Subroutine_Near32` and the
--   breakpoints of `maverick/main.c`.
-- - Maverick/Debugger: the packets of `common/cmd.h` as `ICEThread` serves them, and their
--   interleaving with the run loop (Maverick/Debugger/Reach).
-- - Maverick/Dump: the text of `dump_386` of `maverick/run386.c`.
-- - Maverick/Window: what `maverick/wnd.c` shows of the memory, its palette (Maverick/Window/Palette)
--   and `DosWndProc`.
-- - Iceman: the packets that the commands of `iceman/iceman.c` send and the answers they wait for;
--   what it prints of them (Iceman/Dump).
-- - Iceman/Dis: `iceman/dis.c`, the addresses (`rm32`, `rm16`, `dis_sib`: Address), the operands
--   (`disasm_operand`: Operands), the lines and prefixes (`dis386`: Lines) and the loop of the
--   command `u` (Listing, Rounds); Lengths, OperandLengths and RowLengths compare it with the
--   decoder, by how far decoding moves EIP (Decode/Advance).
-- - Locutus: `locutus/os2mem.c` (Pages), `locutus/os2thunk.c` (Selectors, Thunks), the functions of
--   `locutus/doscalls.c` (Api) and the loader of `locutus/enterprs.c` (Loader) over the state in
--   Locutus/State; the board of `locutus/os2mem.c` with `init_386`, `Exec32` and `LaunchOS2` of
--   `locutus/enterprs.c` (Processor).
-- - Tests: the theorems at concrete inputs.
--
-- How C is read. A handler is a function from the machine to an outcome: a value and the machine
-- after it, `hang` for `while (1);`, `exited` for `exit`, `undefined` for an access outside the
-- block at `Os2Base`, a division by zero, or a value that the code never sets. Integers are natural
-- numbers, reduced modulo 2 ^ 8, 2 ^ 16, 2 ^ 32 or 2 ^ 64 where the code casts or stores them, and
-- `sub32` is the subtraction that wraps. The host is little-endian. `HostCall`, the clock and the
-- modifier keys are parameters of the board. An index past the six segment registers is undefined.
-- `steps_run`, an `int` of the C code, counts without a bound here, a program is taken to end within
-- the memory that it is loaded into, and the negation in `pdisp32` wraps at the least `int`.
--
-- The files of `locutus/` have a state and outcomes of their own (Locutus/State). `lseek` and `write`
-- of the C library and the addresses that the linker gives to the imports are parameters there;
-- `VirtualAlloc`, whose result is not looked at, has no part in the model, so that
-- memory which no allocation has committed can be read and written. What `sscanf` reads from
-- a line and what the pipe carries are inputs of the client and of the debugger's thread; the pipe
-- carries whole packets and answers. Text is a list of character codes; what `%p` prints is a
-- parameter. The disassembler reads its code bytes from a function of the address.
--
-- Fuel. Each prefix byte is a recursive call of `i386_step`, and the model stops at a given number
-- of them. The loop of `do_rep_string` takes ECX as its fuel, which is enough. The run loop has fuel
-- because a program need not end; the states that it passes through are those of `Reaches` and
-- `Debugged`, without a bound. The searches for pages have fuel because they can go on for ever; the
-- results below say where how much is enough. The loop over fixups has the number of bytes as its
-- fuel, which is enough.
--
-- Each prefix is a recursive call of `dis386` too, with fuel; the results say how much is enough.
--
-- Not modelled: making the window and drawing on it, the key states and the exception handler of
-- `maverick/wnd.c`, connecting to the pipe and packets served in the middle of an instruction, the
-- thread of `iceman/iceman.c` that waits for a breakpoint, the `main` functions of
-- `locutus/enterprs.c` and `iceman/iceman.c` but for what is named above, `HostCall` of
-- `locutus/os2thunk.c`, which is inline assembly, and the driver `maverick/test.c`.
pub mod Common
pub mod Isa
pub mod Machine
pub mod Exec
pub mod Decode
pub mod Step
pub mod Maverick
pub mod Iceman
pub mod Locutus
pub mod Tests
