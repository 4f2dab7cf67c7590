-- ===== src/Tests.antt =====
-- A concrete platform, runs of the model on it, and the theorems at concrete inputs.
pub mod BitList
pub mod Counted
mod Readers
mod Hashes
mod Paths
mod Floats
mod Cursor
mod Tables
mod Entities
mod Decoders
mod Packets
