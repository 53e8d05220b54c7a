-- ===== src/Service.antt =====
-- The service, graph-service/src/tateyama/framework/graph/service.cpp: its start and shutdown, the
-- guard of a transaction, an attempt at a Cypher request, how it is tried again when its transaction
-- meets a conflict, the requests for a node and an edge, and `operator()` on any of them.
pub mod Retry
pub mod Guard
pub mod Attempt
pub mod Calls
pub mod Transparent
pub mod Request
pub mod Reads
pub mod Attempts
pub mod Lifecycle
pub mod Operate
