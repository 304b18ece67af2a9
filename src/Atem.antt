-- ===== src/Atem.antt =====
-- include/atem.h, src/atem.cpp and src/atem_state.cpp: the class `Atem`.
pub mod Object
pub mod Vector
pub mod Getters
pub mod Events
pub mod Handlers
pub mod Dispatch
pub mod Connection
pub mod Task
pub mod Assemble
pub mod Send
pub mod ReadBack
pub mod Sizes
pub mod Parses
pub mod Buffered
pub mod Frame
pub mod Session
pub mod Sessions
pub mod Handshake
pub mod Touches
pub mod Raises
pub mod Typed
pub mod Loss
pub mod Silence
pub mod Stored
pub mod Ready
pub mod Resend
pub mod Reset
pub mod OnAir
pub mod Names
pub mod Owned
pub mod Outcome
pub mod Overflow
pub mod Sendable
pub mod Control
pub mod Answer
