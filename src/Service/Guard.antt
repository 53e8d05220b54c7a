-- ===== src/Service/Guard.antt =====
-- `tx_guard`: the control handle of a transaction, and the calls that it makes on the store.
use tsurugi_graph.Base.{ℕ, Bool, true, false, Option, none, some, List, [], ◌∷◌, ◌++◌}

pub record TxGuard : Type 0 where
  pub ctl : Option ℕ
  pub active : Bool

-- A call on the store with the handle that it gets.
pub data Call : Type 0 where
  transaction_begin transaction_borrow_handle : ℕ → Call
  transaction_commit transaction_abort transaction_dispose : ℕ → Call

abbrev pub new_guard : TxGuard
new_guard = record { ctl = none; active = false }

-- What the store answers to `begin`: no transaction, or its handle and whether it can be borrowed.
pub data Begun : Type 0 where
  refused : Begun
  opened : ℕ → Bool → Begun

unfoldable pub begin : Begun → TxGuard → Bool × TxGuard × List Call
begin refused g = (false, g, [])
begin (opened h true) g = (
  true,
  record { ctl = some h; active = true },
  transaction_begin h ∷ transaction_borrow_handle h ∷ [],
)
begin (opened h false) g = (
  false,
  record g { ctl = none },
  transaction_begin h ∷ transaction_borrow_handle h ∷ transaction_dispose h ∷ [],
)

abbrev on_handle : Option ℕ → (ℕ → Call) → List Call
on_handle none call = []
on_handle (some h) call = call h ∷ []

-- Whether the store was asked to commit, the guard, and the calls; without an active transaction it
-- is ERR_UNKNOWN.
unfoldable pub commit : TxGuard → Bool × TxGuard × List Call
commit g = elim g.active [
  | true ↦ (true, record g { active = false }, on_handle g.ctl transaction_commit)
  | false ↦ (false, g, [])
]

unfoldable pub abort : TxGuard → TxGuard × List Call
abort g = elim g.active [
  | true ↦ (record g { active = false }, on_handle g.ctl transaction_abort)
  | false ↦ (g, [])
]

-- The destructor.
unfoldable pub destroy : TxGuard → List Call
destroy g = elim g.ctl [
  | none ↦ []
  | some h ↦ elim g.active [
    | true ↦ transaction_abort h ∷ transaction_dispose h ∷ []
    | false ↦ transaction_dispose h ∷ []
  ]
]

-- The methods that a user calls behind `begin`, in any order and number: a second `begin` comes with
-- what the store answers to it.
pub data Use : Type 0 where
  begins : Begun → Use
  commits aborts : Use

unfoldable pub run_uses : List Use → TxGuard → TxGuard × List Call
unfolding begin commit abort
run_uses [] g = (g, [])
run_uses (begins b ∷ us) g =
    let (ok, g1, calls) = begin b g in let (g2, more) = run_uses us g1 in (g2, calls ++ more)
run_uses (commits ∷ us) g =
    let (asked, g1, calls) = commit g in let (g2, more) = run_uses us g1 in (g2, calls ++ more)
run_uses (aborts ∷ us) g =
    let (g1, calls) = abort g in let (g2, more) = run_uses us g1 in (g2, calls ++ more)

-- The whole life of a guard: a user goes on only where `begin` returned true.
unfoldable pub lifetime : Begun → List Use → List Call
unfolding begin run_uses destroy
lifetime b us =
    let (ok, g, calls) = begin b new_guard in
    let (g1, more) = run_uses us g in
    elim ok [ true ↦ calls ++ (more ++ destroy g1) | false ↦ calls ++ destroy g ]
