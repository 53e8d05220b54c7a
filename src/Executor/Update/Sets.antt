-- ===== src/Executor/Update/Sets.antt =====
-- What SET leaves to read.
use tsurugi_graph.Kvs.{Kvs}
use tsurugi_graph.Executor.State.{Executor}
