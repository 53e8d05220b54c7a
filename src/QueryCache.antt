-- ===== src/QueryCache.antt =====
-- The cache of parsed queries, graph-service/include/tateyama/framework/graph/core/query_cache.h
-- lines 348 to 423: a hash map from query texts to statements, a list of the texts in the order of
-- their last use, and a hash map from each text to its place in the list. Every public method takes
-- the mutex, so that calls are a sequence.
pub mod Cache
pub mod Reads
pub mod Entries
pub mod Recency
mod Order
mod Moves
pub mod Representation
pub mod Refinement
pub mod Calls
