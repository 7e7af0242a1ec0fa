-- ===== src/Examples.antt =====
-- Concrete inputs, the theorems at them, and runs of the code.
mod World
mod Protocol
mod Coding
mod Transfers
mod Sending
mod Sessions
mod Exchanges
mod Runs
mod Endings
mod Whole
mod Systems
mod Meeting
mod Pacing
