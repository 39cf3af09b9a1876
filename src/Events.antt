-- ===== src/Events.antt =====
-- The messages of the queues, as they are decoded.
pub mod Envelope
pub mod Status
pub mod Checks
pub mod History
pub mod Decode
