-- ===== src/Protocol.antt =====
-- internal/protocol: the messages, their quantised coordinates and the binary codec v1.
pub mod Types
pub mod Quantize
pub mod Client
pub mod Snapshot
pub mod Events
pub mod Counted
pub mod Tables
pub mod Scores
pub mod Server
