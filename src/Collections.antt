-- ===== src/Collections.antt =====
-- The collections of common/src/collections: caches that forget.
pub mod KeySorted
pub mod Ring
pub mod TwoGeneration
