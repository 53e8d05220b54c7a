-- ===== src/Tests/Assignments.antt =====
-- SET on a node in memory.
use tsurugi_graph.Base.{true, none, [], ◌∷◌, bytes}
use tsurugi_graph.Keys.{to_key}
use tsurugi_graph.Ast.{literal, Assignment}
use tsurugi_graph.Json.Render.{render}
use tsurugi_graph.Json.RoundTrip.{texts}
use tsurugi_graph.Kvs.{Memory}
use tsurugi_graph.Storage.State.{World}
use tsurugi_graph.Executor.State.{Executor}
use tsurugi_graph.Executor.Update.{Pending}
use tsurugi_graph.Tests.Tables.{start}
use tsurugi_graph.Tests.Properties.{two}

-- The node 7 of the variable `n`, with the text `{"a": "b", "c": 1}`.
abbrev stored : World Memory
stored = record start {
  db = record { tables = λ h. (to_key 7, render (texts two)) ∷ []; sequences = λ id. none };
}

abbrev bound : Executor Memory
bound = record {
  world = stored;
  context = (bytes "n", 7 ∷ []) ∷ [];
  context_labels = (bytes "n", bytes "P") ∷ [];
  unwind_context = [];
}

abbrev in_order : Pending → Pending
in_order p = p

abbrev assignment : Assignment
assignment = record { variable = bytes "n"; property = bytes "a"; value = literal (bytes "x") true }
