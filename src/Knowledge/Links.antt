-- ===== src/Knowledge/Links.antt =====
-- The tables stay linked: whatever is called, and also where a call raises, the entities that an
-- assertion names are there.
use agent_memory_living_memo.Prelude.{
  not, ◌||◌, Option, none, some, List, [], ◌∷◌, Text, Text_eq, codes, ◌==◌, All, All-append,
  All-filter_by, filter_by, is_empty, Bool-cases, ◌≡◌, refl, sym, ◌∙◌, subst, inl, inr,
}
use agent_memory_living_memo.Prelude.Dict
use agent_memory_living_memo.Prelude.Floats.{Floats}
use agent_memory_living_memo.Prelude.Results.{Result, raised, done}
use agent_memory_living_memo.Schema.{MemoryEnvelope, RelationItem}
use agent_memory_living_memo.Schema.Host.{Error}
use agent_memory_living_memo.Facts.{FactRecord}
use agent_memory_living_memo.Store.{replace_row}
use agent_memory_living_memo.Store.Inspect.{get-replace_row}
use agent_memory_living_memo.Knowledge.{
  KnowledgeEntity, KnowledgeAssertion, KnowledgeGraph, NewEntity, NewAssertion, Digests,
  mark_assertion, supersede_all, upsert_entity, named_entity, cleaned_names, assertion_of,
  store_assertion, with_object, with_subject, add_assertion, clear,
}
use agent_memory_living_memo.Knowledge.Entities.{
  upserted, upserted_id, upserted_row, upserted-get, upsert_entity-cases,
}
use agent_memory_living_memo.Knowledge.Queries.{
  relation_assertion, fact_assertion, after_turn, collected, index_relations, index_memory,
  index_fact,
}

All-replace_row :
    {V : Type 0} (P : Text × V → Type 0) (id : Text) (v : V) (rows : List (Text × V))
    → P (id, v)
    → All P rows
    → All P (replace_row id v rows)
unfolding replace_row
All-replace_row P id v rows p h =
    All-append P (filter_by (λ row. not (row.0 == id)) rows) ((id, v) ∷ [])
      (All-filter_by P (λ row. not (row.0 == id)) rows h) (p, tt)

module _ {N : Type 0} where
  -- there is an entity with the id
  abbrev pub Known : List (Text × KnowledgeEntity N) → Text → Type 0
  Known entities id = (e : KnowledgeEntity N) × (Dict.get id entities ≡ some e)

  abbrev pub KnownEnd : List (Text × KnowledgeEntity N) → Option Text → Type 0
  KnownEnd entities none = Unit
  KnownEnd entities (some id) = Known entities id

  abbrev pub IsLinkedRow : List (Text × KnowledgeEntity N) → KnowledgeAssertion N → Type 0
  IsLinkedRow entities a = Known entities a.subject_entity_id × KnownEnd entities a.object_entity_id

  -- every assertion's entities are there
  abbrev pub IsLinked : KnowledgeGraph N → Type 0
  IsLinked k = All (λ row. IsLinkedRow k.entities row.1) k.assertions

  Known-replace_row :
      (id asked : Text) (e : KnowledgeEntity N) (entities : List (Text × KnowledgeEntity N))
      → Known entities asked
      → Known (replace_row id e entities) asked
  Known-replace_row id asked e entities (x, found) = elim (Bool-cases (id == asked)) [
    | inl same ↦ (e, get-replace_row id asked e entities ∙ rw same refl)
    | inr other ↦ (x, get-replace_row id asked e entities ∙ rw other found)
  ]

  KnownEnd-replace_row :
      (id : Text) (e : KnowledgeEntity N) (entities : List (Text × KnowledgeEntity N))
      (asked : Option Text)
      → KnownEnd entities asked
      → KnownEnd (replace_row id e entities) asked
  KnownEnd-replace_row id e entities none h = tt
  KnownEnd-replace_row id e entities (some asked) h = Known-replace_row id asked e entities h

  -- a row that is written into the entities breaks no link
  rows-IsLinked :
      (id : Text) (e : KnowledgeEntity N) (entities : List (Text × KnowledgeEntity N))
      (rows : List (Text × KnowledgeAssertion N))
      → All (λ row. IsLinkedRow entities row.1) rows
      → All (λ row. IsLinkedRow (replace_row id e entities) row.1) rows
  rows-IsLinked id e entities [] h = tt
  rows-IsLinked id e entities (row ∷ rows) h = (
    (
      Known-replace_row id row.1.subject_entity_id e entities h.0.0,
      KnownEnd-replace_row id e entities row.1.object_entity_id h.0.1,
    ),
    rows-IsLinked id e entities rows h.1,
  )

  mark-IsLinked :
      (entities : List (Text × KnowledgeEntity N)) (by old : Text)
      (rows : List (Text × KnowledgeAssertion N))
      → All (λ row. IsLinkedRow entities row.1) rows
      → All (λ row. IsLinkedRow entities row.1) (mark_assertion by old rows)
  unfolding mark_assertion
  mark-IsLinked entities by old [] h = tt
  mark-IsLinked entities by old ((id, a) ∷ rows) h = elim (Bool-cases (id == old)) [
    | inl e ↦ rw (e, mark_assertion) (h.0, mark-IsLinked entities by old rows h.1)
    | inr e ↦ rw (e, mark_assertion) (h.0, mark-IsLinked entities by old rows h.1)
  ]

  supersede_all-IsLinked :
      (a : KnowledgeAssertion N) (olds : List Text) (k : KnowledgeGraph N)
      → IsLinked k
      → IsLinked (supersede_all a olds k)
  unfolding supersede_all
  supersede_all-IsLinked a [] k h = h
  supersede_all-IsLinked a (old ∷ olds) k h =
      supersede_all-IsLinked a olds _ (mark-IsLinked k.entities a.assertion_id old k.assertions h)

module _ (F : Floats) (lower : Text → Text) (digests : Digests F.Float) where
  open F use {Float}

  store_assertion-IsLinked :
      (a : KnowledgeAssertion Float) (k : KnowledgeGraph Float)
      → IsLinkedRow k.entities a
      → IsLinked k
      → IsLinked (store_assertion F lower digests a k).0
  unfolding store_assertion
  store_assertion-IsLinked a k p h =
      supersede_all-IsLinked a a.supersedes
        (record k { assertions = replace_row a.assertion_id a k.assertions })
        (All-replace_row (λ row. IsLinkedRow k.entities row.1) a.assertion_id a k.assertions p h)

  upserted-IsLinked :
      (e : NewEntity Float) (k : KnowledgeGraph Float)
      → IsLinked k
      → IsLinked (upserted F lower digests e k)
  upserted-IsLinked e k h =
      rows-IsLinked (upserted_id F lower digests e) (upserted_row F lower digests e k) k.entities
        k.assertions h

  with_object-IsLinked :
      (a : NewAssertion Float) (id : Text) (e : NewEntity Float) (k : KnowledgeGraph Float)
      → Known k.entities id
      → IsLinked k
      → IsLinked (with_object F lower digests a id (upsert_entity F lower digests e k)).0
  unfolding assertion_of
  with_object-IsLinked a id e k known h = elim (upsert_entity-cases F lower digests e k) [
    | inl raises ↦ rw raises h
    | inr writes ↦
        let row = upserted_row F lower digests e k in
        rw writes (
          store_assertion-IsLinked (assertion_of F lower digests a id (some row.entity_id))
            (upserted F lower digests e k)
            (
              Known-replace_row (upserted_id F lower digests e) id row k.entities known,
              (row, upserted-get F lower digests e k),
            )
            (upserted-IsLinked e k h))
  ]

  with_subject-IsLinked :
      (a : NewAssertion Float) (e : NewEntity Float) (k : KnowledgeGraph Float)
      → IsLinked k
      → IsLinked (with_subject F lower digests a (upsert_entity F lower digests e k)).0
  unfolding assertion_of
  with_subject-IsLinked a e k h = elim (upsert_entity-cases F lower digests e k) [
    | inl raises ↦ rw raises h
    | inr writes ↦
        let row = upserted_row F lower digests e k in
        let k' = upserted F lower digests e k in
        let known : Known k'.entities row.entity_id = (row, upserted-get F lower digests e k) in
        rw writes (elim (Bool-cases (a.object_kind == codes "entity")) [
          | inl entity ↦ rw entity (
              with_object-IsLinked a row.entity_id
                (named_entity F lower digests a a.object (codes "object")) k' known
                (upserted-IsLinked e k h))
          | inr literal ↦ rw literal (
              store_assertion-IsLinked (assertion_of F lower digests a row.entity_id none) k'
                (known, tt) (upserted-IsLinked e k h))
        ])
  ]

  pub add_assertion-IsLinked :
      (raw : NewAssertion Float) (k : KnowledgeGraph Float)
      → IsLinked k
      → IsLinked (add_assertion F lower digests raw k).0
  unfolding add_assertion
  add_assertion-IsLinked raw k h =
      let a = cleaned_names F lower digests raw in
      let linked =
        with_subject-IsLinked a (named_entity F lower digests a a.subject (codes "subject")) k h in
      elim (Bool-cases (
        is_empty a.subject
        || is_empty a.predicate
        || is_empty a.object
        || is_empty a.source_memory_id)) [
          | inl blank ↦ rw (blank, add_assertion) h
          | inr filled ↦ rw (filled, add_assertion) linked
        ]

  upsert_entity-IsLinked :
      (e : NewEntity Float) (k : KnowledgeGraph Float)
      → IsLinked k
      → IsLinked (upsert_entity F lower digests e k).0
  upsert_entity-IsLinked e k h = elim (upsert_entity-cases F lower digests e k) [
    | inl raises ↦ rw raises h
    | inr writes ↦ rw writes (upserted-IsLinked e k h)
  ]

  collected-tables :
      (a : KnowledgeAssertion Float)
      (p : KnowledgeGraph Float × Result Error (List (KnowledgeAssertion Float)))
      → (collected a p).0 ≡ p.0
  collected-tables a (k, raised e) = refl
  collected-tables a (k, done rest) = refl

  after_turn-IsLinked :
      (p : KnowledgeGraph Float × Result Error (KnowledgeAssertion Float))
      (next : KnowledgeGraph Float
        → KnowledgeGraph Float × Result Error (List (KnowledgeAssertion Float)))
      → IsLinked p.0
      → ((k : KnowledgeGraph Float) → IsLinked k → IsLinked (next k).0)
      → IsLinked (after_turn F lower digests p next).0
  after_turn-IsLinked (k, raised e) next h rest = h
  after_turn-IsLinked (k, done a) next h rest =
      subst IsLinked (sym (collected-tables a (next k))) (rest k h)

  index_relations-IsLinked :
      (m : MemoryEnvelope Float) (items : List (RelationItem Float)) (k : KnowledgeGraph Float)
      → IsLinked k
      → IsLinked (index_relations F lower digests m items k).0
  unfolding index_relations
  index_relations-IsLinked m [] k h = h
  index_relations-IsLinked m (item ∷ items) k h =
      after_turn-IsLinked
        (add_assertion F lower digests (relation_assertion F lower digests m item) k)
        (index_relations F lower digests m items)
        (add_assertion-IsLinked (relation_assertion F lower digests m item) k h)
        (index_relations-IsLinked m items)

  -- a call of one of the methods that write
  pub data Call : Type 0 where
    upserts : NewEntity Float → Call
    asserts : NewAssertion Float → Call
    indexes : MemoryEnvelope Float → Call
    mirrors : FactRecord Float → Call
    clears : Call

  -- the tables after calls, of which some may have raised
  unfoldable pub run : List Call → KnowledgeGraph Float → KnowledgeGraph Float
  unfolding upsert_entity add_assertion index_memory index_fact clear
  run [] k = k
  run (upserts e ∷ calls) k = run calls (upsert_entity F lower digests e k).0
  run (asserts a ∷ calls) k = run calls (add_assertion F lower digests a k).0
  run (indexes m ∷ calls) k = run calls (index_memory F lower digests m k).0
  run (mirrors f ∷ calls) k = run calls (index_fact F lower digests f k).0
  run (clears ∷ calls) k = run calls (clear k)

  -- Whatever entities, assertions, memories and facts are added, in whatever order and also if some of
  -- the calls raise, the two entities that an assertion names are in the table of entities, if this
  -- was so before.
  pub run-IsLinked :
      (calls : List Call) (k : KnowledgeGraph Float) → IsLinked k → IsLinked (run calls k)
  unfolding run index_memory index_fact clear
  run-IsLinked [] k h = h
  run-IsLinked (upserts e ∷ calls) k h = run-IsLinked calls _ (upsert_entity-IsLinked e k h)
  run-IsLinked (asserts a ∷ calls) k h = run-IsLinked calls _ (add_assertion-IsLinked a k h)
  run-IsLinked (indexes m ∷ calls) k h =
      run-IsLinked calls _ (index_relations-IsLinked m m.relations k h)
  run-IsLinked (mirrors f ∷ calls) k h =
      run-IsLinked calls _ (add_assertion-IsLinked (fact_assertion F lower digests f k) k h)
  run-IsLinked (clears ∷ calls) k h = run-IsLinked calls _ tt
