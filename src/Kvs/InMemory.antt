-- ===== src/Kvs/InMemory.antt =====
-- A store in memory, which shows that the promises can be kept: for each handle a list of entries.
use tsurugi_graph.Base.{
  ℕ, ◌≡◌, refl, ap, Bool, true, false, Option, none, some, List, [], ◌∷◌, Bytes, ◌==◌,
  if◌then◌else◌, arith, eq_bytes, eq_bytes_iff, has_prefix, keep, ◌&&◌, All, lt_bytes, Bool-cases,
  inl, inr, ◌∙◌,
}
use tsurugi_graph.Kvs.Laws.{
  Kvs, IsKvs, IsReliable, KeepsSequences, ScansPrefixes, PutOperation, create, create_or_update,
  entry_of, after_begin, before_end, ScansRanges,
}

pub record Memory : Type 0 where
  pub tables : ℕ → List (Bytes × Bytes)
  pub sequences : ℕ → Option (ℕ × ℕ)

abbrev pub empty_memory : Memory
empty_memory = record { tables = λ h. []; sequences = λ id. none }

write : Bytes → Bytes → List (Bytes × Bytes) → List (Bytes × Bytes)
write k v [] = (k, v) ∷ []
write k v ((j, w) ∷ es) =
    let rest = write k v es in
    if eq_bytes j k
    then (k, v) ∷ es
    else if lt_bytes k j
    then (k, v) ∷ (j, w) ∷ es
    else (j, w) ∷ rest

is_absent : Option Bytes → Bool
is_absent none = true
is_absent (some v) = false

may_write : PutOperation → Option Bytes → Bool
may_write create o = is_absent o
may_write create_or_update o = true

unfoldable pub memory_kvs : Kvs Memory
unfolding write may_write is_absent entry_of
memory_kvs = record {
  content_get = λ m h k. entry_of k (m.tables h);
  content_put = λ m h k v op.
      if may_write op (entry_of k (m.tables h))
      then (true, record m { tables = λ g. if h == g then write k v (m.tables g) else m.tables g })
      else (false, m);
  content_scan = λ m h b bk e ek.
      some (keep (λ x. after_begin b bk x.0) (keep (λ x. before_end e ek x.0) (m.tables h)));
  sequence_put = λ m id version value. (
    true,
    record m { sequences = λ i. if i == id then some (version, value) else m.sequences i },
  );
  sequence_get = λ m id. m.sequences id;
}

entry_of-write :
    (k v j : Bytes) (es : List (Bytes × Bytes))
    → entry_of j (write k v es) ≡ (if eq_bytes k j then some v else entry_of j es)
unfolding entry_of write
entry_of-write k v j [] = refl
entry_of-write k v j ((i, w) ∷ es) =
    ground (arith, eq_bytes_iff i k, eq_bytes_iff i j, eq_bytes_iff k j, entry_of-write k v j es)

pub entry_of-keep :
    (p : Bytes → Bool) (k : Bytes) (es : List (Bytes × Bytes))
    → p k ≡ true
    → entry_of k (keep (λ x. p x.0) es) ≡ entry_of k es
unfolding entry_of keep
entry_of-keep p k [] h = refl
entry_of-keep p k ((j, w) ∷ es) h = ground (arith, eq_bytes_iff j k, entry_of-keep p k es h)

pub All-keep :
    (p : Bytes × Bytes → Bool) (es : List (Bytes × Bytes)) → All (λ e. p e ≡ true) (keep p es)
unfolding keep
All-keep p [] = tt
All-keep p (e ∷ es) = elim (Bool-cases (p e)) [
  | inl h ↦ rw h (h, All-keep p es)
  | inr h ↦ rw h (All-keep p es)
]

pub memory-IsKvs : IsKvs memory_kvs
unfolding memory_kvs
memory-IsKvs = record {
  get_put = λ s h k v op ok g j. ground (arith, entry_of-write k v j (s.tables g));
  get_put_failed = λ s h k v op failed g j. ground arith;
  create_exists = λ s h k v w found. ground arith;
  get_sequence_put = λ s id version value g j. refl;
}

pub memory-IsReliable : IsReliable memory_kvs
unfolding memory_kvs
memory-IsReliable = record {
  create_ok = λ s h k v absent. ground arith;
  update_ok = λ s h k v. refl;
}

pub memory-KeepsSequences : KeepsSequences memory_kvs
unfolding memory_kvs
memory-KeepsSequences = record {
  sequence_get_put = λ s id version value ok. ground arith;
  sequence_get_content = λ s h k v op id. ground arith;
}

unfoldable pub memory-ScansPrefixes : ScansPrefixes memory_kvs
unfolding memory_kvs
memory-ScansPrefixes = record {
  entries = λ s h p. keep (λ x. has_prefix p x.0) (keep (λ x. has_prefix p x.0) (s.tables h));
  scanned = λ s h p. refl;
  prefixed = λ s h p. All-keep (λ x. has_prefix p x.0) _;
  complete = λ s h p k e.
      entry_of-keep (has_prefix p) k _ e ∙ entry_of-keep (has_prefix p) k (s.tables h) e;
}

pub keep-keep :
    (p q : Bytes × Bytes → Bool) (es : List (Bytes × Bytes))
    → keep p (keep q es) ≡ keep (λ x. p x && q x) es
unfolding keep
keep-keep p q [] = refl
keep-keep p q (e ∷ es) = ground (arith, keep-keep p q es)

unfoldable pub memory-ScansRanges : ScansRanges memory_kvs
unfolding memory_kvs
memory-ScansRanges = record {
  table = λ s h. s.tables h;
  ranged = λ s h b bk e ek.
      ap some (keep-keep (λ x. after_begin b bk x.0) (λ x. before_end e ek x.0) (s.tables h));
  listed = λ s h k. refl;
}
