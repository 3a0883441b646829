-- ===== src/Buddy/Steps.antt =====
-- The three moves that the operations are made of: a block is pushed on its free list, popped from
-- it, or marked as allocated. Each moves the region in hand.
pub mod Push
pub mod Pop
pub mod Mark
