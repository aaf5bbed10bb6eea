-- ===== src/Memory.antt =====
-- kernel/src/memory: the physical frame allocator.
pub mod Frame
