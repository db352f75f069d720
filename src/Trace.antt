-- ===== src/Trace.antt =====
-- packages/cli/src/runtime/trace: messages of HTTP/1.1 out of the bytes of a connection, and their
-- exchanges.
pub mod Bytes
pub mod Http1
pub mod Body
pub mod Framing
pub mod Extension
pub mod Stability
pub mod Reassembler
pub mod Drains
pub mod Loops
pub mod Ends
pub mod Pairing
pub mod Closing
pub mod Responses
pub mod Exchanges
pub mod Cutting
pub mod Chunking
mod Tests
