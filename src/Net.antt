-- ===== src/Net.antt =====
-- network/: the protocol state of a connection, the packets, and the way in from bytes to a packet.
pub mod Table
pub mod Decode
pub mod Receive
pub mod Framing
pub mod Encode
pub mod Profile
pub mod Handlers
pub mod Guarded
pub mod Leaves
pub mod Login
pub mod Loop
pub mod Send
pub mod Queue
pub mod Socket
pub mod Drain
mod Tests
mod LoginTests
