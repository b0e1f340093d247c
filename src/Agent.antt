-- ===== src/Agent.antt =====
-- src/suiban/agent/loop.py: the ReAct loop over one slot.
pub mod Types
pub mod Text
pub mod Calls
pub mod Loop
pub mod Structured
pub mod Settles
pub mod Induction
pub mod Repair
pub mod Stream
pub mod Fence
pub mod Tests
