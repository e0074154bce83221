-- ===== src/Facts/Rows.antt =====
-- What `add_fact` does to the rows of the ledger.
use agent_memory_living_memo.Prelude.{
  ◌≡◌, refl, ap, arith, ◌||◌, inl, inr, Bool-cases, Option, none, some, Option-cases, List, [], ◌∷◌,
  Text, Text_eq, text_eq_iff, ◌==◌, contains, is_empty, if◌then◌else◌, beq_self,
}
use agent_memory_living_memo.Prelude.Dict
use agent_memory_living_memo.Prelude.Floats.{Floats}
use agent_memory_living_memo.Prelude.Results.{done, Result-cases}
use agent_memory_living_memo.Graph.{GraphRow}
use agent_memory_living_memo.Facts.{
  FactRecord, FactKey, Ledger, NewFact, superseded_row, mark, marked_ledger, record_of,
  index_fact_graph, index_conflict_graph, supersede_all, store_fact, get, add_fact,
}

module _ {N : Type 0} where
  -- what becomes of a row that is marked
  abbrev pub marked : Text → Option (FactRecord N) → Option (FactRecord N)
  marked by none = none
  marked by (some r) = some (superseded_row by r)

  get-mark :
      (by old id : Text) (facts : List (Text × FactRecord N))
      → Dict.get id (mark by old facts)
        ≡ (if old == id then marked by (Dict.get id facts) else Dict.get id facts)
  unfolding mark Dict.get
  get-mark by old id [] = ground arith
  get-mark by old id ((j, r) ∷ facts) =
      ground
        (arith, get-mark by old id facts, text_eq_iff j old, text_eq_iff j id, text_eq_iff old id)

  pub keys-mark :
      (by old : Text) (facts : List (Text × FactRecord N))
      → Dict.keys (mark by old facts) ≡ Dict.keys facts
  unfolding mark
  keys-mark by old [] = refl
  keys-mark by old ((j, r) ∷ facts) = ap (◌∷◌ j) (keys-mark by old facts)

  marked-marked : (by : Text) (o : Option (FactRecord N)) → marked by (marked by o) ≡ marked by o
  marked-marked by none = refl
  marked-marked by (some r) = refl

module _ (F : Floats) (lower : Text → Text) (digest : FactKey F.Float → Text) where
  open F use {Float}

  -- the loop is done when nothing is left, or when the rest is done after its first turn
  pub supersede_all-turn :
      (r : FactRecord Float) (old : Text) (olds : List Text) (l l' : Ledger Float)
      → supersede_all F lower digest r (old ∷ olds) l ≡ done l'
      → (graph : List (GraphRow Float)) × (supersede_all F lower digest r olds
            (marked_ledger F lower digest r old graph l)
          ≡ done l')
  unfolding supersede_all
  supersede_all-turn r old olds l l' h =
      elim (Option-cases (index_conflict_graph F lower digest r old l.graph)) [
        | inl e ↦ absurd (ground (arith, h, e))
        | inr (graph, e) ↦ (graph, ground (arith, h, e))
      ]

  pub supersede_all-end :
      (r : FactRecord Float) (l l' : Ledger Float)
      → supersede_all F lower digest r [] l ≡ done l'
      → l ≡ l'
  unfolding supersede_all
  supersede_all-end r l l' h = ground (arith, h)

  supersede_all-get :
      (r : FactRecord Float) (olds : List Text) (l l' : Ledger Float) (id : Text)
      → supersede_all F lower digest r olds l ≡ done l'
      → Dict.get id l'.facts
        ≡ (if contains olds id then marked r.fact_id (Dict.get id l.facts) else Dict.get id l.facts)
  unfolding contains marked_ledger
  supersede_all-get r [] l l' id h = rw (← supersede_all-end r l l' h) refl
  supersede_all-get r (old ∷ olds) l l' id h =
      let (graph, t) = supersede_all-turn r old olds l l' h in
      ground (
        arith,
        supersede_all-get r olds (marked_ledger F lower digest r old graph l) l' id t,
        get-mark r.fact_id old id l.facts,
        marked-marked r.fact_id (Dict.get id l.facts),
      )

  pub store_fact-done :
      (r : FactRecord Float) (l l' : Ledger Float)
      → store_fact F lower digest r l ≡ done l'
      → (graph : List (GraphRow Float)) × (supersede_all F lower digest r r.supersedes (record {
        facts = Dict.put r.fact_id r l.facts;
        conflicts = l.conflicts;
        graph = graph;
      })
          ≡ done l')
  unfolding store_fact
  store_fact-done r l l' h = elim (Option-cases (index_fact_graph F lower digest r l.graph)) [
    | inl e ↦ absurd (ground (arith, h, e))
    | inr (graph, e) ↦ (graph, ground (arith, h, e))
  ]

  -- the row of an id after a fact is stored
  abbrev pub row_after : FactRecord Float → Text → Ledger Float → Option (FactRecord Float)
  row_after r id l =
      let before = if r.fact_id == id then some r else Dict.get id l.facts in
      if contains r.supersedes id then marked r.fact_id before else before

  store_fact-get :
      (r : FactRecord Float) (l l' : Ledger Float) (id : Text)
      → store_fact F lower digest r l ≡ done l'
      → Dict.get id l'.facts ≡ row_after r id l
  store_fact-get r l l' id h =
      let (graph, t) = store_fact-done r l l' h in
      ground (
        arith,
        supersede_all-get r r.supersedes
            (record {
              facts = Dict.put r.fact_id r l.facts;
              conflicts = l.conflicts;
              graph = graph;
            })
            l' id t,
        Dict.get-put r.fact_id id r l.facts,
      )

  -- what a call that returns a record has done
  pub add_fact-some :
      (f : NewFact Float) (l : Ledger Float) (found : FactRecord Float)
      → (add_fact F lower digest f l).1 ≡ some found
      → store_fact F lower digest (record_of F lower digest f) l
        ≡ done (add_fact F lower digest f l).0
  unfolding add_fact
  add_fact-some f l found h =
      let r = record_of F lower digest f in
      elim (Bool-cases (
        is_empty r.subject
        || is_empty r.predicate
        || is_empty r.object
        || is_empty r.source_memory_id)) [
          | inl e ↦ absurd (ground (arith, h, e))
          | inr e ↦ elim (Result-cases (store_fact F lower digest r l)) [
            | inl (graph, p) ↦ absurd (ground (arith, h, e, p))
            | inr (stored, p) ↦ rw (e, add_fact) (rw p refl)
          ]
        ]

  -- After a fact is added its row is the fact's, active, and every other row is as it was, but that
  -- the rows of the ids that the fact supersedes, its own included, are marked as superseded by it.
  pub get-add_fact :
      (f : NewFact Float) (l : Ledger Float) (found : FactRecord Float) (id : Text)
      → (add_fact F lower digest f l).1 ≡ some found
      → get F lower digest id (add_fact F lower digest f l).0
        ≡ row_after (record_of F lower digest f) id l
  unfolding get
  get-add_fact f l found id h =
      store_fact-get (record_of F lower digest f) l (add_fact F lower digest f l).0 id
        (add_fact-some f l found h)

  -- A call that raises leaves the facts and the conflicts as they were.
  pub add_fact-none :
      (f : NewFact Float) (l : Ledger Float)
      → (add_fact F lower digest f l).1 ≡ none
      → ((add_fact F lower digest f l).0.facts ≡ l.facts)
        × ((add_fact F lower digest f l).0.conflicts ≡ l.conflicts)
  unfolding add_fact get
  add_fact-none f l h =
      let r = record_of F lower digest f in
      elim (Bool-cases (
        is_empty r.subject
        || is_empty r.predicate
        || is_empty r.object
        || is_empty r.source_memory_id)) [
          | inl e ↦ rw (e, add_fact) (refl, refl)
          | inr e ↦ elim (Result-cases (store_fact F lower digest r l)) [
            | inl (graph, p) ↦ rw (e, add_fact) (rw p (refl, refl))
            | inr (stored, p) ↦
                absurd (
                  ground
                    (arith, h, e, p, store_fact-get r l stored r.fact_id p, beq_self r.fact_id))
          ]
        ]
