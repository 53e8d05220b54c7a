-- ===== src/Tests/Catalogs.antt =====
-- A catalog of tables on a store in memory, and a start of the resource.
use tsurugi_graph.Base.{
  ℕ, zero, suc, ◌+◌, ◌*◌, ◌^◌, ◌<◌, ◌≡◌, inl, inr, refl, ◌==◌, true, false, some, [], ◌∷◌, arith,
  Bytes, eq_bytes, eq_bytes_iff, Bool-cases, ap,
}
use tsurugi_graph.Kvs.{Memory, memory_kvs, empty_memory}
use tsurugi_graph.Storage.State.{World}
use tsurugi_graph.Storage.Frame.{HasTables}
use tsurugi_graph.Storage.Init
use tsurugi_graph.Storage.Init.{Catalog, created}
use tsurugi_graph.Storage.Init.Tables.{IsCatalog, init-HasTables}
use tsurugi_graph.Service.Guard.{opened}
use tsurugi_graph.Resource
use tsurugi_graph.Resource.{Resource, new_storage}
use tsurugi_graph.Resource.Start.{Outcome, start-Outcome}

-- A name's number: no two names have the same.
number_of : Bytes → ℕ
number_of [] = 0
number_of (b ∷ bs) = 2 ^ b * (2 * number_of bs + 1)

pow_suc : (x q : ℕ) → 2 ^ suc x * q ≡ 2 * (2 ^ x * q)
pow_suc x q = grind arith

pow_pos : (x q : ℕ) → 0 < q → 0 < 2 ^ x * q
pow_pos zero q h = omega arith
pow_pos (suc x) q h = omega (arith, pow_suc x q, pow_pos x q h)

pow_odd_inj : (x y a b : ℕ) → 2 ^ x * (2 * a + 1) ≡ 2 ^ y * (2 * b + 1) → (x ≡ y) × (a ≡ b)
pow_odd_inj zero zero a b h = (refl, omega arith)
pow_odd_inj zero (suc y) a b h = absurd (omega (arith, pow_suc y (2 * b + 1)))
pow_odd_inj (suc x) zero a b h = absurd (omega (arith, pow_suc x (2 * a + 1)))
pow_odd_inj (suc x) (suc y) a b h =
    let (e, f) =
      pow_odd_inj x y a b (omega (arith, pow_suc x (2 * a + 1), pow_suc y (2 * b + 1))) in
    (ap suc e, f)

number_of_inj : (n m : Bytes) → number_of n ≡ number_of m → n ≡ m
unfolding number_of
number_of_inj [] [] h = refl
number_of_inj [] (b ∷ bs) h = absurd (omega (arith, pow_pos b (2 * number_of bs + 1) (omega arith)))
number_of_inj (b ∷ bs) [] h = absurd (omega (arith, pow_pos b (2 * number_of bs + 1) (omega arith)))
number_of_inj (b ∷ bs) (c ∷ cs) h =
    let (e, f) = pow_odd_inj b c (number_of bs) (number_of cs) h in
    let rest = number_of_inj bs cs f in cc

abbrev catalog : Catalog Memory
catalog = record {
  storage_create = λ s name. (created (suc (number_of name)), s);
  storage_get = λ s name. some (suc (number_of name));
  sequence_create = λ s. (some 3, s);
}

distinct_numbers :
    (n m : Bytes) → eq_bytes n m ≡ false → suc (number_of n) == suc (number_of m) ≡ false
distinct_numbers n m ne = elim (Bool-cases (suc (number_of n) == suc (number_of m))) [
  | inl e ↦
      let same : n ≡ m = number_of_inj n m (ground arith) in
      absurd (ground (arith, eq_bytes_iff n m))
  | inr e ↦ e
]

catalog-IsCatalog : IsCatalog catalog
catalog-IsCatalog = record {
  handle_of = λ name. suc (number_of name);
  created_handle = λ s name h e. ground arith;
  got_handle = λ s name h e. ground arith;
  open_handle = λ name. ground arith;
  distinct_handles = distinct_numbers;
}

abbrev fresh : World Memory
fresh = record { store = new_storage; db = empty_memory; undefined = false }

abbrev initialised : World Memory
initialised = (Init.init memory_kvs catalog 5 fresh).1

initialised-true : Init.init memory_kvs catalog 5 fresh ≡ (true, initialised)
unfolding Init.init memory_kvs
initialised-true = refl

init-HasTables_example : HasTables initialised.store
init-HasTables_example =
    init-HasTables memory_kvs catalog catalog-IsCatalog 5 fresh initialised initialised-true

abbrev resource : Resource Memory
resource = record { world = fresh; db_handle = 0; initialized = false }

start-Outcome_example :
    Outcome memory_kvs catalog catalog-IsCatalog
      (some 5)
      (opened 9 true)
      resource
      (Resource.start memory_kvs catalog (some 5) (opened 9 true) true resource)
start-Outcome_example =
    start-Outcome memory_kvs catalog catalog-IsCatalog (some 5) (opened 9 true) true resource
