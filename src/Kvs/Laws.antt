-- ===== src/Kvs/Laws.antt =====
-- The store's interface, and what its documentation promises.
use tsurugi_graph.Base.{
  ℕ, ◌≡◌, Bool, true, false, ◌&&◌, Option, none, some, List, [], ◌∷◌, Bytes, ◌==◌, if◌then◌else◌,
  eq_bytes, has_prefix, All, not, keep, lt_bytes,
}

pub data PutOperation : Type 0 where
  create create_or_update : PutOperation

pub data EndPointKind : Type 0 where
  inclusive exclusive prefixed_inclusive : EndPointKind

-- A scan is the entries that its iterator goes through, in order.
pub record Kvs (S : Type 0) : Type 0 where
  pub content_get : S → ℕ → Bytes → Option Bytes
  pub content_put : S → ℕ → Bytes → Bytes → PutOperation → Bool × S
  pub content_scan :
      S → ℕ → Bytes → EndPointKind → Bytes → EndPointKind → Option (List (Bytes × Bytes))
  pub sequence_put : S → ℕ → ℕ → ℕ → Bool × S
  -- the version and the value
  pub sequence_get : S → ℕ → Option (ℕ × ℕ)

-- An entry of a scan, by its key.
unfoldable pub entry_of : Bytes → List (Bytes × Bytes) → Option Bytes
entry_of k [] = none
entry_of k ((j, v) ∷ es) = if eq_bytes j k then some v else entry_of k es

abbrev pub same_key : ℕ → Bytes → ℕ → Bytes → Bool
same_key h k g j = h == g && eq_bytes k j

abbrev pub after_begin : Bytes → EndPointKind → Bytes → Bool
after_begin b inclusive k = not (lt_bytes k b)
after_begin b exclusive k = lt_bytes b k
after_begin b prefixed_inclusive k = has_prefix b k

abbrev pub before_end : Bytes → EndPointKind → Bytes → Bool
before_end e inclusive k = not (lt_bytes e k)
before_end e exclusive k = lt_bytes k e
before_end e prefixed_inclusive k = has_prefix e k

module _ {S : Type 0} (kvs : Kvs S) where
  -- A write that succeeds is read back, and changes no other key. One that fails changes nothing.
  -- CREATE fails on a key that exists.
  pub record IsKvs : Type 0 where
    pub get_put :
        (s : S) (h : ℕ) (k v : Bytes) (op : PutOperation)
        → (kvs.content_put s h k v op).0 ≡ true
        → (g : ℕ) (j : Bytes)
        → kvs.content_get (kvs.content_put s h k v op).1 g j
          ≡ (if same_key h k g j then some v else kvs.content_get s g j)
    pub get_put_failed :
        (s : S) (h : ℕ) (k v : Bytes) (op : PutOperation)
        → (kvs.content_put s h k v op).0 ≡ false
        → (g : ℕ) (j : Bytes)
        → kvs.content_get (kvs.content_put s h k v op).1 g j ≡ kvs.content_get s g j
    pub create_exists :
        (s : S) (h : ℕ) (k v w : Bytes)
        → kvs.content_get s h k ≡ some w
        → (kvs.content_put s h k v create).0 ≡ false
    pub get_sequence_put :
        (s : S) (id version value g : ℕ) (j : Bytes)
        → kvs.content_get (kvs.sequence_put s id version value).1 g j ≡ kvs.content_get s g j

  -- No write fails but a CREATE on a key that exists: no conflict and no error of the store.
  pub record IsReliable : Type 0 where
    pub create_ok :
        (s : S) (h : ℕ) (k v : Bytes)
        → kvs.content_get s h k ≡ none
        → (kvs.content_put s h k v create).0 ≡ true
    pub update_ok :
        (s : S) (h : ℕ) (k v : Bytes) → (kvs.content_put s h k v create_or_update).0 ≡ true

  -- A sequence keeps the version and the value of a put that succeeds, and no write to a table
  -- changes them.
  pub record KeepsSequences : Type 0 where
    pub sequence_get_put :
        (s : S) (id version value : ℕ)
        → (kvs.sequence_put s id version value).0 ≡ true
        → kvs.sequence_get (kvs.sequence_put s id version value).1 id ≡ some (version, value)
    pub sequence_get_content :
        (s : S) (h : ℕ) (k v : Bytes) (op : PutOperation) (id : ℕ)
        → kvs.sequence_get (kvs.content_put s h k v op).1 id ≡ kvs.sequence_get s id

  -- A prefix scan goes through the entries whose key has the prefix, each once.
  pub record ScansPrefixes : Type 0 where
    pub entries : S → ℕ → Bytes → List (Bytes × Bytes)
    pub scanned :
        (s : S) (h : ℕ) (p : Bytes)
        → kvs.content_scan s h p prefixed_inclusive p prefixed_inclusive ≡ some (entries s h p)
    pub prefixed : (s : S) (h : ℕ) (p : Bytes) → All (λ e. has_prefix p e.0 ≡ true) (entries s h p)
    pub complete :
        (s : S) (h : ℕ) (p k : Bytes)
        → has_prefix p k ≡ true
        → entry_of k (entries s h p) ≡ kvs.content_get s h k

  -- A scan goes through the entries of its table whose keys lie between the end points.
  pub record ScansRanges : Type 0 where
    pub table : S → ℕ → List (Bytes × Bytes)
    pub ranged :
        (s : S) (h : ℕ) (b : Bytes) (bk : EndPointKind) (e : Bytes) (ek : EndPointKind)
        → kvs.content_scan s h b bk e ek
          ≡ some (keep (λ x. after_begin b bk x.0 && before_end e ek x.0) (table s h))
    pub listed : (s : S) (h : ℕ) (k : Bytes) → entry_of k (table s h) ≡ kvs.content_get s h k
