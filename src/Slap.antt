-- ===== src/Slap.antt =====
-- The sub-agent protocol (src/suiban/slap): message validation, the builders of messages and the trace store.
pub mod Validation
pub mod Messages
pub mod Builders
pub mod Shapes
pub mod Operations
pub mod Accepts
pub mod Mirror
pub mod Valid
pub mod Looks
pub mod Parts
pub mod Built
pub mod Signals
pub mod Requests
pub mod Trace
mod Recall
mod Tests
