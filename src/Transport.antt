-- ===== src/Transport.antt =====
-- include/io/transport: the bytes on the wire, the messages of the links, and the links.
pub mod Bytes
pub mod Packet
pub mod AckMessage
pub mod RetryPolicy
pub mod FairLossChannel
pub mod ReliableChannel
pub mod ReliableTransport
mod Tests
