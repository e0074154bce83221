-- ===== src/Knowledge/Queries.antt =====
-- What is indexed and what is asked: the relations of memories, the facts of the ledger, the
-- queries over assertions and the summary of some memories.
use agent_memory_living_memo.Prelude.{
  ℕ, ◌*◌, Bool, true, false, not, ◌&&◌, ◌||◌, Option, none, some, List, [], ◌∷◌, map, Text, Text_eq,
  codes, ◌==◌, contains, dedup, all_of, filter_by, is_empty, take, length, if◌then◌else◌,
}
use agent_memory_living_memo.Prelude.Dict
use agent_memory_living_memo.Prelude.Floats.{Floats, le}
use agent_memory_living_memo.Prelude.Results.{Result, raised, done}
use agent_memory_living_memo.Prelude.Sort.{sort_by}
use agent_memory_living_memo.Prelude.Strings.{norm}
use agent_memory_living_memo.Prelude.Strings.Order.{sorted_set}
use agent_memory_living_memo.Schema.{Dict, MemoryEnvelope, RelationItem}
use agent_memory_living_memo.Schema.Host.{Error}
use agent_memory_living_memo.Schema.Modality.{or_value}
use agent_memory_living_memo.Schema.Values.{Json, json_eq}
use agent_memory_living_memo.Graph.{same_time, of_bool}
use agent_memory_living_memo.Facts.{FactRecord}
use agent_memory_living_memo.Knowledge.{
  KnowledgeEntity, KnowledgeAssertion, KnowledgeGraph, NewAssertion, Digests, or_default,
  add_assertion, get_entity,
}

-- The arguments of `query`; an empty scope or status, and an empty list of ids, is no condition.
pub record AssertionFilter (N : Type 0) : Type 0 where
  pub subject : Option Text
  pub predicate : Option Text
  pub object : Option Text
  pub scope : Dict N
  pub status : Text
  pub at_time : Option N
  pub memory_ids : List Text
  pub limit : Option ℕ

-- What `summary_for_memories` returns.
pub record Summary (N : Type 0) : Type 0 where
  pub memory_ids : List Text
  pub entity_count : ℕ
  pub assertion_count : ℕ
  pub entities : List (KnowledgeEntity N)
  pub assertions : List (KnowledgeAssertion N)

abbrev pub without_empty : List Text → List Text
without_empty items = filter_by (λ item. not (is_empty item)) items

-- the list of what the loop appends
abbrev pub collected :
    {N : Type 0}
    → KnowledgeAssertion N
    → KnowledgeGraph N × Result Error (List (KnowledgeAssertion N))
    → KnowledgeGraph N × Result Error (List (KnowledgeAssertion N))
collected a (k, raised e) = (k, raised e)
collected a (k, done rest) = (k, done (a ∷ rest))

module _ (F : Floats) (lower : Text → Text) where
  open F use {Float, lt}

  -- ORDER BY observed_at ASC
  unfoldable pub assertion_ids_for_facts : List Text → KnowledgeGraph Float → List Text
  unfolding filter_by is_empty sort_by contains
  assertion_ids_for_facts fact_ids k =
      let ids = without_empty fact_ids in
      map (λ a. a.assertion_id)
        (sort_by (λ a b. le F a.observed_at b.observed_at)
          (filter_by (λ a. elim a.fact_id [ none ↦ false | some id ↦ contains ids id ])
            (map (λ row. row.1) k.assertions)))

  abbrev pub asked_for : Option Text → Text → Bool
  asked_for none column = true
  asked_for (some value) column = column == norm lower value

  abbrev pub holds_at : Option Float → KnowledgeAssertion Float → Bool
  holds_at none a = true
  holds_at (some t) a =
      (elim a.valid_from [ none ↦ true | some f ↦ le F f t ])
      && (elim a.valid_to [ none ↦ true | some e ↦ le F t e ])

  -- the WHERE clauses; the columns of normal forms are the normal forms of the names
  unfoldable pub satisfies : AssertionFilter Float → KnowledgeAssertion Float → Bool
  unfolding norm contains is_empty filter_by
  satisfies f a =
      (is_empty f.status || (a.status == f.status))
      && asked_for f.subject (norm lower a.subject)
      && asked_for f.predicate (norm lower a.predicate)
      && asked_for f.object (norm lower a.object)
      && (is_empty (without_empty f.memory_ids)
          || contains (without_empty f.memory_ids) a.source_memory_id)
      && holds_at f.at_time a

  -- `all(item.scope.get(key) == value for key, value in scope.items())`
  unfoldable pub in_scope : Dict Float → Dict Float → Bool
  unfolding all_of Dict.get json_eq
  in_scope scope of =
      all_of
        (λ item.
          json_eq (same_time F lower) (of_bool F lower)
            (elim (Dict.get item.0 of) [ none ↦ Json.null | some v ↦ v ]) item.1)
        scope

  -- ORDER BY confidence DESC, observed_at DESC
  unfoldable pub surer : KnowledgeAssertion Float → KnowledgeAssertion Float → Bool
  surer a b =
      not (lt a.confidence b.confidence)
      && (lt b.confidence a.confidence || not (lt a.observed_at b.observed_at))

  abbrev pub cut : Option ℕ → List (KnowledgeAssertion Float) → List (KnowledgeAssertion Float)
  cut none items = items
  cut (some limit) items = take limit items

  abbrev pub fourfold : Option ℕ → Option ℕ
  fourfold none = none
  fourfold (some limit) = some (limit * 4)

  unfoldable pub query :
      AssertionFilter Float → KnowledgeGraph Float → List (KnowledgeAssertion Float)
  unfolding satisfies surer in_scope filter_by sort_by take is_empty
  query f k =
      let rows =
        cut (fourfold f.limit)
          (sort_by surer (filter_by (satisfies f) (map (λ row. row.1) k.assertions))) in
      cut f.limit
        (if is_empty f.scope then rows else filter_by (λ a. in_scope f.scope a.scope) rows)

  unfoldable pub assertions_for_memory :
      Text → KnowledgeGraph Float → List (KnowledgeAssertion Float)
  unfolding query
  assertions_for_memory memory_id k =
      query
        (record {
          subject = none;
          predicate = none;
          object = none;
          scope = [];
          status = [];
          at_time = none;
          memory_ids = memory_id ∷ [];
          limit = none;
        })
        k

  -- the ids at the two ends of the assertions that are not empty
  unfoldable pub end_ids : List (KnowledgeAssertion Float) → List Text
  end_ids [] = []
  end_ids (a ∷ as') =
      a.subject_entity_id ∷ (elim a.object_entity_id [ none ↦ [] | some id ↦ id ]) ∷ end_ids as'

  -- the loop over the ids; one that is unknown or out of the scope is passed over
  unfoldable pub entities_of :
      Dict Float → List Text → KnowledgeGraph Float → List (KnowledgeEntity Float)
  unfolding get_entity in_scope
  entities_of scope [] k = []
  entities_of scope (id ∷ ids) k =
      let rest = entities_of scope ids k in
      elim (get_entity id k) [
        | raised e ↦ rest
        | done entity ↦ if in_scope scope entity.scope then entity ∷ rest else rest
      ]

  unfoldable pub summary_for_memories :
      List Text → Dict Float → Option Float → ℕ → KnowledgeGraph Float → Summary Float
  unfolding dedup filter_by is_empty query sorted_set end_ids entities_of take
  summary_for_memories memory_ids scope at_time limit k =
      let ids = without_empty (dedup memory_ids) in
      let assertions =
        query
          (record {
            subject = none;
            predicate = none;
            object = none;
            scope = scope;
            status = codes "active";
            at_time = at_time;
            memory_ids = ids;
            limit = some limit;
          })
          k in
      let entities =
        entities_of scope (take limit (sorted_set (without_empty (end_ids assertions)))) k in
      record {
        memory_ids = ids;
        entity_count = length entities;
        assertion_count = length assertions;
        entities = entities;
        assertions = assertions;
      }

  -- the numbers of entities, of assertions and of active assertions
  unfoldable pub count : KnowledgeGraph Float → ℕ × (ℕ × ℕ)
  unfolding filter_by
  count k = (
    length k.entities,
    (length k.assertions, length (filter_by (λ row. row.1.status == codes "active") k.assertions)),
  )

  module _ (digests : Digests Float) where
    abbrev pub relation_assertion : MemoryEnvelope Float → RelationItem Float → NewAssertion Float
    relation_assertion memory item = record {
      subject = item.subject;
      predicate = item.predicate;
      object = item.object;
      source_memory_id = memory.id;
      scope = memory.scope;
      object_kind = codes "entity";
      graph_name = codes "knowledge";
      fact_id = none;
      valid_from = item.valid_from;
      valid_to = item.valid_to;
      observed_at = memory.created_at;
      confidence = or_value item.confidence memory.confidence;
      status = codes "active";
      reason = codes "memory_relation";
      supersedes = [];
    }

    -- the rest of the loop, unless a turn raises
    abbrev pub after_turn :
        KnowledgeGraph Float × Result Error (KnowledgeAssertion Float)
        → (KnowledgeGraph Float
            → KnowledgeGraph Float × Result Error (List (KnowledgeAssertion Float)))
        → KnowledgeGraph Float × Result Error (List (KnowledgeAssertion Float))
    after_turn (k, raised e) next = (k, raised e)
    after_turn (k, done a) next = collected a (next k)

    unfoldable pub index_relations :
        MemoryEnvelope Float
        → List (RelationItem Float)
        → KnowledgeGraph Float
        → KnowledgeGraph Float × Result Error (List (KnowledgeAssertion Float))
    unfolding add_assertion
    index_relations memory [] k = (k, done [])
    index_relations memory (item ∷ items) k =
        after_turn (add_assertion F lower digests (relation_assertion memory item) k)
          (index_relations memory items)

    unfoldable pub index_memory :
        MemoryEnvelope Float
        → KnowledgeGraph Float
        → KnowledgeGraph Float × Result Error (List (KnowledgeAssertion Float))
    unfolding index_relations
    index_memory memory k = index_relations memory memory.relations k

    abbrev pub fact_assertion : FactRecord Float → KnowledgeGraph Float → NewAssertion Float
    fact_assertion fact k = record {
      subject = fact.subject;
      predicate = fact.predicate;
      object = fact.object;
      source_memory_id = fact.source_memory_id;
      scope = fact.scope;
      object_kind = codes "literal";
      graph_name = codes "knowledge";
      fact_id = some fact.fact_id;
      valid_from = fact.valid_from;
      valid_to = fact.valid_to;
      observed_at = fact.created_at;
      confidence = fact.confidence;
      status = fact.status;
      reason = or_default fact.reason (codes "fact_ledger");
      supersedes = assertion_ids_for_facts fact.supersedes k;
    }

    unfoldable pub index_fact :
        FactRecord Float
        → KnowledgeGraph Float
        → KnowledgeGraph Float × Result Error (KnowledgeAssertion Float)
    unfolding assertion_ids_for_facts add_assertion
    index_fact fact k = add_assertion F lower digests (fact_assertion fact k) k
