-- ===== src/Memory.antt =====
-- src/suiban/memory: what a conversation keeps when it outgrows its slot.
pub mod Compression
