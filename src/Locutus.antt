-- ===== src/Locutus.antt =====
-- `locutus/`: the host of 32-bit OS/2 programs on the same processor.
pub mod Pages
pub mod State
pub mod Selectors
pub mod Thunks
pub mod Api
pub mod Loader
pub mod Processor
