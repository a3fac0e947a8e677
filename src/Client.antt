-- ===== src/Client.antt =====
-- Clients of the protocol.
pub mod Read
pub mod Split
pub mod Lines
pub mod Process
pub mod CommandList
mod Tests
