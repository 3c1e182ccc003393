-- ===== src/KvCache.antt =====
-- miniserve/kv_cache.py. `Storage` holds the class, `Tables` the block tables as a multiset of ids,
-- and the other children its theorems.
pub mod Storage
pub mod Tables
pub mod Conservation
pub mod Allocation
pub mod Check
pub mod Poison
