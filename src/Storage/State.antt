-- ===== src/Storage/State.antt =====
-- The members of class `storage`, and the world that its methods change. A handle is a pointer, 0
-- the null one. A method's first test, `if (!tx || !handle) return false`, is `is_open`.
use tsurugi_graph.Base.{ℕ, Bool, ◌||◌, not, ◌==◌}

pub record Storage : Type 0 where
  pub nodes_handle : ℕ
  pub edges_handle : ℕ
  pub out_index_handle : ℕ
  pub in_index_handle : ℕ
  pub label_index_handle : ℕ
  pub property_index_handle : ℕ
  pub sequence_id : ℕ
  pub sequence_version : ℕ
  pub next_id : ℕ
  pub sequence_batch_remaining : ℕ

-- The object, and the database as the transaction sees it. `undefined` records that the run has had
-- undefined behaviour outside the query cache: nothing that the model gives for such a run is a
-- statement about the code.
pub record World (S : Type 0) : Type 0 where
  pub store : Storage
  pub db : S
  pub undefined : Bool

abbrev pub mark : {S : Type 0} → Bool → World S → World S
mark b w = record w { undefined = w.undefined || b }

abbrev pub is_open : ℕ → ℕ → Bool
is_open tx handle = not (tx == 0 || handle == 0)
