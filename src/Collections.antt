-- ===== src/Collections.antt =====
-- The containers of libs/go/src/collections.
pub mod Lru
pub mod PQueue
pub mod Queue
pub mod Set
pub mod Stack
