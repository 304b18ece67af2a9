-- ===== src/Examples.antt =====
-- The code on concrete inputs.
pub mod Ids
pub mod Packets
pub mod Switchers
pub mod Tasks
pub mod Stored
pub mod Names
pub mod Commands
pub mod Connecting
pub mod Streams
pub mod Programs
pub mod Outcomes
pub mod Reached
