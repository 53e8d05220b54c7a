-- ===== src/Service/Operate/Sequences.antt =====
-- Sequences of requests.
use tsurugi_graph.Base.{
  ℕ, ◌≡◌, refl, ◌∙◌, ◌⊎◌, inl, inr, Bool, true, false, ◌||◌, Option, none, some, List, [], ◌∷◌,
  Bytes, Option-cases, arith,
}
use tsurugi_graph.Ast.{Statement}
use tsurugi_graph.QueryCache.Cache.{Cache}
use tsurugi_graph.Kvs.{Kvs}
use tsurugi_graph.Records.{EdgeRead, found, rejected, out_of_bounds}
use tsurugi_graph.Storage.State.{World}
use tsurugi_graph.Storage.Edges
use tsurugi_graph.Executor.Update.{Pending}
use tsurugi_graph.Service.Retry.{Response, success, error}
use tsurugi_graph.Service.Transparent.{IsSound}
use tsurugi_graph.Service.Reads.{node_get, edge_get}
use tsurugi_graph.Service.Request.Effects.{
  SameContents, RollsBack, ResponseEffect, IsMarked, served_run, serve-IsAnsweredFrom,
}
use tsurugi_graph.Service.Operate.{
  Command, cypher, get_node, get_edge, no_command, Answers, Reply, no_reply, empty_reply,
  cypher_reply, read_reply, options, Operated, operate, operate_all,
}

-- A query was committed.
abbrev pub changes : Reply → Bool
changes (cypher_reply (success result)) = true
changes (cypher_reply (error code message)) = false
changes (read_reply r) = false
changes empty_reply = false
changes no_reply = false

abbrev pub any_changes : List (Bool × Reply) → Bool
any_changes [] = false
any_changes ((ok, reply) ∷ rs) = changes reply || any_changes rs

-- The reply has the kind of the command, and `operator()` returned false where the payload is no
-- request.
abbrev pub IsReplyTo : Option Command → Bool → Reply → Type 0
IsReplyTo none ok no_reply = ok ≡ false
IsReplyTo (some (cypher query ltx)) ok (cypher_reply r) = ok ≡ true
IsReplyTo (some (get_node id)) ok (read_reply r) = ok ≡ true
IsReplyTo (some (get_edge id)) ok (read_reply r) = ok ≡ true
IsReplyTo (some no_command) ok empty_reply = ok ≡ true
IsReplyTo _ ok _ = ⊥

abbrev pub Fits : List (Answers × Option Command) → List (Bool × Reply) → Type 0
Fits [] [] = Unit
Fits [] (r ∷ rs) = ⊥
Fits (c ∷ cs) [] = ⊥
Fits ((a, parsed) ∷ cs) ((ok, reply) ∷ rs) = IsReplyTo parsed ok reply × Fits cs rs

module _ {S : Type 0} (kvs : Kvs S) (stod : Bytes → Option ℕ) (iteration : Pending → Pending)
    (concurrency : ℕ) (rollback : S → S → S) (out_of_range : Bytes)
    (laws : RollsBack kvs rollback) where
  -- Where no query was committed, the tables are as they were.
  abbrev pub Effect : Bool → World S → World S → Type 0
  Effect true w w1 = Unit
  Effect false w w1 = SameContents kvs w.db w1.db

  response_effect :
      (r : Response) (w w1 : World S)
      → ResponseEffect kvs w r w1
      → Effect (changes (cypher_reply r)) w w1
  unfolding ResponseEffect
  response_effect (success result) w w1 h = tt
  response_effect (error code message) w w1 h = h

  Effect-trans :
      (b d : Bool) (w w1 w2 : World S) → Effect b w w1 → Effect d w1 w2 → Effect (b || d) w w2
  Effect-trans true d w w1 w2 h k = tt
  Effect-trans false true w w1 w2 h k = tt
  Effect-trans false false w w1 w2 h k = λ g j. k g j ∙ h g j

  abbrev IsServed : Option Command → World S → Operated S → Type 0
  IsServed parsed w o =
      (ok : Bool) × (reply : Reply) × (c : Cache Statement) × (w1 : World S) × (o
        ≡ some (ok, reply, c, w1))
      × IsReplyTo parsed ok reply
      × Effect (changes reply) w w1
      × IsSound c

  -- The request meets undefined behaviour: the run of a query records it, or an edge is read behind
  -- the end of its value.
  abbrev pub MeetsUndefined : Answers → Option Command → Cache Statement → World S → Type 0
  MeetsUndefined a (some (cypher query ltx)) c w =
      IsMarked kvs stod iteration concurrency rollback out_of_range laws (
        served_run kvs stod iteration concurrency rollback out_of_range laws
          (a.trials (options ltx w.store)) query c w)
  MeetsUndefined a (some (get_edge id)) c w =
      (a.begins ≡ true) × (Edges.get_edge kvs a.tx id w ≡ out_of_bounds)
  MeetsUndefined a _ c w = ⊥

  edge_get-none :
      (a : Answers) (id : ℕ) (w : World S) (begins : Bool) (r : EdgeRead)
      → a.begins ≡ begins
      → Edges.get_edge kvs a.tx id w ≡ r
      → edge_get kvs a.tx a.thrown a.begins id w ≡ none
      → (a.begins ≡ true) × (Edges.get_edge kvs a.tx id w ≡ out_of_bounds)
  unfolding edge_get
  edge_get-none a id w false r b e h = absurd (ground (arith, b))
  edge_get-none a id w true (found d) b e h = absurd (ground (arith, b, e))
  edge_get-none a id w true rejected b e h = absurd (ground (arith, b, e))
  edge_get-none a id w true out_of_bounds b e h = (b, e)

  operate-IsServed :
      (a : Answers) (parsed : Option Command) (c : Cache Statement) (w : World S)
      → IsSound c
      → IsServed parsed w
          (operate kvs stod iteration concurrency rollback out_of_range a parsed c w)
        ⊎ (MeetsUndefined a parsed c w
            × (operate kvs stod iteration concurrency rollback out_of_range a parsed c w ≡ none))
  unfolding operate
  operate-IsServed a none c w h = inl (false, no_reply, c, w, refl, refl, (λ g j. refl), h)
  operate-IsServed a (some (cypher query ltx)) c w h =
      elim (serve-IsAnsweredFrom kvs stod iteration concurrency rollback out_of_range laws
        (a.trials (options ltx w.store)) query c w h) [
          | inl (r, sleeps, c1, w1, e, effect, kept) ↦ inl (
            true,
            cypher_reply r,
            c1,
            w1,
            rw (e, operate) refl,
            refl,
            response_effect r w w1 effect,
            kept,
          )
          | inr (marked, e) ↦ inr (marked, rw (e, operate) refl)
        ]
  operate-IsServed a (some (get_node id)) c w h = inl (
    true,
    read_reply (node_get kvs a.tx a.thrown a.begins id w),
    c,
    w,
    refl,
    refl,
    (λ g j. refl),
    h,
  )
  operate-IsServed a (some (get_edge id)) c w h =
      elim (Option-cases (edge_get kvs a.tx a.thrown a.begins id w)) [
        | inl e ↦ inr (
          edge_get-none a id w a.begins (Edges.get_edge kvs a.tx id w) refl refl e,
          rw (e, operate) refl,
        )
        | inr (r, e) ↦ inl (true, read_reply r, c, w, rw (e, operate) refl, refl, (λ g j. refl), h)
      ]
  operate-IsServed a (some no_command) c w h =
      inl (true, empty_reply, c, w, refl, refl, (λ g j. refl), h)

  -- Every request has its reply, and the tables are as before where no query was committed.
  abbrev pub AreServed :
      List (Answers × Option Command)
      → World S
      → Option (List (Bool × Reply) × Cache Statement × World S)
      → Type 0
  AreServed rs w o =
      (replies : List (Bool × Reply)) × (c : Cache Statement) × (w1 : World S) × (o
        ≡ some (replies, c, w1))
      × Fits rs replies
      × Effect (any_changes replies) w w1
      × IsSound c

  -- Some request meets undefined behaviour, in the cache and the world that those before it leave.
  abbrev pub SomeUndefined : List (Answers × Option Command) → Cache Statement → World S → Type 0
  SomeUndefined [] c w = ⊥
  SomeUndefined ((a, parsed) ∷ rs) c w =
      MeetsUndefined a parsed c w
      ⊎ ((ok : Bool) × (reply : Reply) × (c1 : Cache Statement) × (w1 : World S) × (operate kvs stod
              iteration concurrency rollback out_of_range a parsed c w
            ≡ some (ok, reply, c1, w1))
          × SomeUndefined rs c1 w1)

  -- Where an abort leaves the tables as they were at the begin, any requests on a sound cache are
  -- answered, in their order, each with a reply of its command's kind; the cache is sound again,
  -- and unless one of the replies is the success of a query, every record of every table is as
  -- before. The one exception is a sequence in which a request meets undefined behaviour, a query
  -- whose run records it or an edge that is read behind the end of its value: it has no result.
  pub operate_all-AreServed :
      (rs : List (Answers × Option Command)) (c : Cache Statement) (w : World S)
      → IsSound c
      → AreServed rs w (operate_all kvs stod iteration concurrency rollback out_of_range rs c w)
        ⊎ (SomeUndefined rs c w
            × (operate_all kvs stod iteration concurrency rollback out_of_range rs c w ≡ none))
  unfolding operate_all
  operate_all-AreServed [] c w h = inl ([], c, w, refl, tt, (λ g j. refl), h)
  operate_all-AreServed ((a, parsed) ∷ rs) c w h = elim (operate-IsServed a parsed c w h) [
    | inr (meets, e) ↦ inr (inl meets, rw (e, operate_all) refl)
    | inl (ok, reply, c1, w1, e, answered, effect, kept) ↦
        elim (operate_all-AreServed rs c1 w1 kept) [
          | inr (later, f) ↦
              inr (inr (ok, reply, c1, w1, e, later), rw (e, operate_all) (rw f refl))
          | inl (replies, c2, w2, f, fits, effects, sound) ↦ inl (
            (ok, reply) ∷ replies,
            c2,
            w2,
            rw (e, operate_all) (rw f refl),
            (answered, fits),
            Effect-trans (changes reply) (any_changes replies) w w1 w2 effect effects,
            sound,
          )
        ]
  ]
