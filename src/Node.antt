-- ===== src/Node.antt =====
-- src/node: the sending side of a transfer.
pub mod State
pub mod Sender
pub mod Transfer
pub mod Receiver
pub mod Receiving
pub mod Loop
pub mod System
pub mod Session
pub mod Start
