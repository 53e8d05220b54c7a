-- ===== src/Storage.antt =====
-- The storage layer, graph-service/src/tateyama/framework/graph/storage.cpp and its header: the
-- node and edge records and the indexes over them, in six tables of the key-value store.
pub mod State
pub mod Ids
pub mod Index
pub mod Init
pub mod Nodes
pub mod Edges
pub mod Scan
pub mod Frame
pub mod NodeReads
pub mod EdgeReads
pub mod EntryLists
mod EntryWrites
pub mod IndexEntries
pub mod LabelScan
