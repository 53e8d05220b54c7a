-- ===== src/Executor.antt =====
-- The executor, graph-service/src/tateyama/framework/graph/core/executor.cpp: its symbol table, the
-- texts of properties, the clauses, and the statements that they make up.
pub mod State
pub mod Create
pub mod Match
pub mod Hops
pub mod Where
pub mod Update
pub mod Return
pub mod Run
