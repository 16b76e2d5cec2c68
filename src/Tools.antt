-- ===== src/Tools.antt =====
-- tools/: what examines and patches the game's ROM.
pub mod Words
pub mod DumpRom
pub mod CheckPatch
pub mod Dump
pub mod CellDiff
pub mod TraceDiff
pub mod DestPhase
pub mod Replay
pub mod Recon
pub mod Patches
mod Tests
mod RunTests
