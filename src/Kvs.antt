-- ===== src/Kvs.antt =====
-- The key-value store under the graph: the calls of the sharksfin API that the storage layer
-- makes, as a parameter. The code tells only OK from every other status, so that a status is a
-- Boolean. A handle is a pointer, 0 the null one. The type parameter is the database as the
-- transaction sees it.
mod Laws
mod InMemory
unfoldable pub use Laws.*
unfoldable pub use InMemory.{memory_kvs, memory-ScansPrefixes, memory-ScansRanges}
pub use InMemory.{Memory, memory-IsKvs, memory-IsReliable, memory-KeepsSequences, empty_memory}
