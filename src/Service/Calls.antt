-- ===== src/Service/Calls.antt =====
-- What `tx_guard` asks of the store over its life.
use tsurugi_graph.Base.{ℕ, ◌≡◌, refl, true, false, some, List, [], ◌∷◌, ◌++◌}
use tsurugi_graph.Service.Guard.{
  TxGuard, Call, transaction_begin, transaction_borrow_handle, transaction_commit,
  transaction_abort, transaction_dispose, opened, begin, destroy, Use, begins, commits, aborts,
  run_uses, lifetime,
}

-- The end of a transaction: the first use decides, and without any it is aborted.
abbrev pub ending : ℕ → List Use → Call
ending h [] = transaction_abort h
ending h (commits ∷ us) = transaction_commit h
ending h (aborts ∷ us) = transaction_abort h
ending h (begins b ∷ us) = ending h us

-- No second `begin`.
unfoldable pub OnlyEnds : List Use → Type 0
OnlyEnds [] = Unit
OnlyEnds (begins b ∷ us) = ⊥
OnlyEnds (commits ∷ us) = OnlyEnds us
OnlyEnds (aborts ∷ us) = OnlyEnds us

abbrev active_guard : ℕ → TxGuard
active_guard h = record { ctl = some h; active = true }

abbrev ended_guard : ℕ → TxGuard
ended_guard h = record { ctl = some h; active = false }

-- A guard whose transaction has ended asks for nothing more.
run_uses_ended :
    (h : ℕ) (us : List Use) → OnlyEnds us → run_uses us (ended_guard h) ≡ (ended_guard h, [])
unfolding run_uses OnlyEnds
run_uses_ended h [] o = refl
run_uses_ended h (begins b ∷ us) o = absurd o
run_uses_ended h (commits ∷ us) o = rw (run_uses_ended h us o) refl
run_uses_ended h (aborts ∷ us) o = rw (run_uses_ended h us o) refl

uses_and_destroy :
    (h : ℕ) (us : List Use)
    → OnlyEnds us
    → (run_uses us (active_guard h)).1 ++ destroy (run_uses us (active_guard h)).0
      ≡ ending h us ∷ transaction_dispose h ∷ []
unfolding run_uses destroy OnlyEnds
uses_and_destroy h [] o = refl
uses_and_destroy h (begins b ∷ us) o = absurd o
uses_and_destroy h (commits ∷ us) o = rw (run_uses_ended h us o) refl
uses_and_destroy h (aborts ∷ us) o = rw (run_uses_ended h us o) refl

-- Whatever commits and aborts a user calls behind a `begin` that returned true, with no second
-- `begin`, the transaction ends exactly once, by the first call or, without any, by an abort in the
-- destructor, and is then disposed of, once.
pub lifetime-opened :
    (h : ℕ) (us : List Use)
    → OnlyEnds us
    → lifetime (opened h true) us
      ≡ transaction_begin h ∷ transaction_borrow_handle h ∷ ending h us ∷ transaction_dispose h ∷ []
unfolding lifetime begin
lifetime-opened h us o = rw (uses_and_destroy h us o) refl
