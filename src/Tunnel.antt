-- ===== src/Tunnel.antt =====
-- The tunnel of src/tunnel.c.
pub mod Types
pub mod Host
pub mod Send
pub mod Channels
pub mod Handshake
pub mod FecIn
pub mod Receive
pub mod Tick
pub mod Frames
pub mod Local
pub mod Rates
pub mod States
pub mod Compare
pub mod Mutual
pub mod Replayed
pub mod Wire
pub mod Reset
pub mod Framing
pub mod Ids
pub mod Timeouts
pub mod Live
pub mod Setup
pub mod Run
mod Toy
mod Tests
mod LifetimeTests
