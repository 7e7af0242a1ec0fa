-- ===== src/Protocol.antt =====
-- src/protocol: packets, their bytes, and what reads them from and writes them to a connection.
pub mod Headers
pub mod Packet
pub mod Recv
pub mod Construct
pub mod Decode
pub mod Send
pub mod Delivery
pub mod Offer
pub mod Room
pub mod Pieces
