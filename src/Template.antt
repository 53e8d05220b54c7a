-- ===== src/Template.antt =====
-- Query templates, graph-service/include/tateyama/framework/graph/core/query_cache.h lines 14 to
-- 346: normalised query texts and cache keys, the literals of a statement in the order of one
-- traversal, and the deep copy of a statement.
pub mod Normalize
pub mod Literals
pub mod Copy
pub mod CacheKey
pub mod Binding
pub mod Rebinding
pub mod Copies
