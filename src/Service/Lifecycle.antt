-- ===== src/Service/Lifecycle.antt =====
-- `service::setup`, `start` and `shutdown`, and the options of a long transaction.
use tsurugi_graph.Base.{ℕ, Bool, true, false, Option, none, some, List, [], ◌∷◌}
use tsurugi_graph.Storage.State.{Storage}

-- The modes of the framework that `start` tells apart.
pub data BootMode : Type 0 where
  maintenance_standalone maintenance_server quiescent_server other_mode : BootMode

-- Whether the pointer to the resource is set, and the database's handle, 0 for the null one.
pub record Service : Type 0 where
  pub graph_resource : Bool
  pub db_handle : ℕ

unfoldable pub setup : Service → Bool × Service
setup s = (true, s)

-- What the framework finds: whether there is a graph resource, and the store's bridge with its
-- handle.
unfoldable pub start : BootMode → Bool → Option ℕ → Service → Bool × Service
start maintenance_standalone found kvs_resource s = (true, s)
start maintenance_server found kvs_resource s = (true, s)
start quiescent_server found kvs_resource s = (true, s)
start other_mode found none s = (false, record s { graph_resource = found })
start other_mode false (some db) s = (false, record s { graph_resource = false })
start other_mode true (some db) s = (true, record { graph_resource = true; db_handle = db })

unfoldable pub shutdown : Service → Bool × Service
shutdown s = (true, record { graph_resource = false; db_handle = 0 })

-- `make_ltx_options`: the tables that a long transaction reserves for its writes.
unfoldable pub make_ltx_options : Storage → List ℕ
make_ltx_options st =
    st.nodes_handle ∷ st.edges_handle ∷ st.out_index_handle ∷ st.in_index_handle
    ∷ st.label_index_handle ∷ st.property_index_handle ∷ []
