-- ===== src/QueryCache/Calls.antt =====
-- Any sequence of calls on a new cache.
use tsurugi_graph.Base.{
  ℕ, ◌<◌, ◌≡◌, refl, ap, Option, none, some, List, [], ◌∷◌, Bytes, length, find, arith,
}
use tsurugi_graph.QueryCache.Cache.{Cache, init, get, put, clear, size}
use tsurugi_graph.QueryCache.Recency.{touch, store}
use tsurugi_graph.QueryCache.Representation.{Represents, init-Represents}
use tsurugi_graph.QueryCache.Refinement.{get-Represents, put-Represents}

module _ {ℓ} (V : Type ℓ) where
  pub data Call : Type ℓ where
    gets : Bytes → Call
    puts : Bytes → V → Call
    clears sizes : Call

  -- What a call returns.
  pub data Answer : Type ℓ where
    statement : Option V → Answer
    number : ℕ → Answer
    nothing : Answer

module _ {ℓ} {V : Type ℓ} where
  unfoldable pub call : Call V → Cache V → Option (Answer V × Cache V)
  unfolding get put clear size
  call (gets query) c = elim (get query c) [ none ↦ none | some (r, c1) ↦ some (statement r, c1) ]
  call (puts query v) c = elim (put query v c) [ none ↦ none | some c1 ↦ some (nothing, c1) ]
  call clears c = some (nothing, clear c)
  call sizes c = some (number (size c), c)

  -- The answers in order; `none` where a call is undefined.
  unfoldable pub run_calls : List (Call V) → Cache V → Option (List (Answer V))
  unfolding call
  run_calls [] c = some []
  run_calls (k ∷ ks) c = elim (call k c) [
    | none ↦ none
    | some (a, c1) ↦ elim (run_calls ks c1) [ none ↦ none | some later ↦ some (a ∷ later) ]
  ]

  -- The same calls on the entries by their last use.
  unfoldable pub answer : ℕ → Call V → List (Bytes × V) → Answer V × List (Bytes × V)
  unfolding touch store
  answer max_size (gets query) l = (statement (find query l), touch query l)
  answer max_size (puts query v) l = (nothing, store max_size query v l)
  answer max_size clears l = (nothing, [])
  answer max_size sizes l = (number (length l), l)

  unfoldable pub answers : ℕ → List (Call V) → List (Bytes × V) → List (Answer V)
  unfolding answer
  answers max_size [] l = []
  answers max_size (k ∷ ks) l = let (a, l1) = answer max_size k l in a ∷ answers max_size ks l1

  clear-Represents : (c : Cache V) (l : List (Bytes × V)) → Represents c l → Represents (clear c) []
  unfolding clear
  clear-Represents c l h = record {
    values = λ k. refl;
    size = refl;
    unique = tt;
    distinct = tt;
    aligned = tt;
    below = tt;
    bounded = omega arith;
    room = h.room;
  }

  call-Represents :
      (k : Call V) (c : Cache V) (l : List (Bytes × V))
      → Represents c l
      → (c1 : Cache V) × (call k c ≡ some ((answer c.max_size k l).0, c1))
        × Represents c1 (answer c.max_size k l).1
        × (c1.max_size ≡ c.max_size)
  unfolding call answer
  call-Represents (gets query) c l h =
      let (c1, e, kept, same) = get-Represents query c l h in (c1, rw (e, call) refl, kept, same)
  call-Represents (puts query v) c l h =
      let (c1, e, kept, same) = put-Represents query v c l h in (c1, rw (e, call) refl, kept, same)
  call-Represents clears c l h = (clear c, refl, clear-Represents c l h, refl)
  call-Represents sizes c l h = (c, ap (λ n. some (number n, c)) h.size, h, refl)

  run_calls-answers :
      (ks : List (Call V)) (c : Cache V) (l : List (Bytes × V))
      → Represents c l
      → run_calls ks c ≡ some (answers c.max_size ks l)
  unfolding run_calls answers
  run_calls-answers [] c l h = refl
  run_calls-answers (k ∷ ks) c l h =
      let (c1, e, kept, same) = call-Represents k c l h in
      rw (e, run_calls) (rw (run_calls-answers ks c1 _ kept) (rw same refl))

  -- Any calls on a new cache with room for an entry are defined, and give the answers of the list of
  -- entries by their last use, which holds as many as the cache may and gives up the last one for a
  -- new one: lookups, sizes and what is gone after a `clear` are the same.
  pub run_calls_refines :
      (max_size : ℕ) (ks : List (Call V))
      → 0 < max_size
      → run_calls ks (init max_size) ≡ some (answers max_size ks [])
  unfolding init
  run_calls_refines max_size ks pos =
      run_calls-answers ks (init max_size) [] (init-Represents max_size pos)
