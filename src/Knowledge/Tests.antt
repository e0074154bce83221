-- ===== src/Knowledge/Tests.antt =====
-- Runs over the knowledge graph, and the theorems at concrete inputs.
use agent_memory_living_memo.Prelude.{
  ℕ, false, none, some, [], ◌∷◌, ◌++◌, Text, Text_eq, ◌==◌, codes, text_eq, length, All, ◌≡◌, ◌≤◌,
  refl,
}
use agent_memory_living_memo.Prelude.Floats.{cents, cents-IsOrder}
use agent_memory_living_memo.Prelude.Strings.{strip}
use agent_memory_living_memo.Prelude.Results.{raised, done}
use agent_memory_living_memo.Schema.Host.Error.{value_error}
use agent_memory_living_memo.Schema.Samples.{note}
use agent_memory_living_memo.Knowledge.{
  KnowledgeEntity, KnowledgeGraph, NewEntity, NewAssertion, Digests, upsert_entity, add_assertion,
  get_entity, entity_id_of,
}
use agent_memory_living_memo.Knowledge.Queries.{AssertionFilter, query, count}
use agent_memory_living_memo.Knowledge.Entities.{IsUpdate, upsert_entity-IsUpdate}
use agent_memory_living_memo.Knowledge.Links.{
  IsLinked, upserts, asserts, indexes, clears, run, run-IsLinked,
}
use agent_memory_living_memo.Knowledge.Answers.{Satisfies, InScope, query-Satisfies}

abbrev lower : Text → Text
lower s = s

abbrev digests : Digests ℕ
digests = record { entity = λ name scope. name; assertion = λ key. key.subject ++ key.object }

abbrev nothing : KnowledgeGraph ℕ
nothing = record { entities = []; assertions = []; conflicts = []; graph = [] }

abbrev ann : NewEntity ℕ
ann = record {
  name = codes " ann ";
  entity_type = [];
  aliases = codes "annie" ∷ [];
  scope = [];
  source_memory_id = some (codes "m1");
  confidence = 60;
  created_at = 5;
  status = [];
}

abbrev likes : NewAssertion ℕ
likes = record {
  subject = codes "ann";
  predicate = codes "likes";
  object = codes "tabs";
  source_memory_id = codes "m2";
  scope = [];
  object_kind = [];
  graph_name = [];
  fact_id = none;
  valid_from = none;
  valid_to = none;
  observed_at = 9;
  confidence = 250;
  status = [];
  reason = [];
  supersedes = [];
}

abbrev ann_row : KnowledgeEntity ℕ
ann_row = record {
  entity_id = codes "ent_ann";
  name = codes "ann";
  entity_type = codes "entity";
  aliases = codes "ann" ∷ codes "annie" ∷ [];
  scope = [];
  source_memory_ids = codes "m1" ∷ [];
  confidence = 60;
  status = codes "active";
  created_at = 5;
  updated_at = 5;
}

abbrev with_ann : KnowledgeGraph ℕ
with_ann = record nothing { entities = (codes "ent_ann", ann_row) ∷ [] }

stored_ann : upsert_entity cents lower digests ann nothing ≡ (with_ann, done ann_row)
unfolding upsert_entity text_eq
stored_ann = refl

unnamed :
    upsert_entity cents lower digests (record ann { name = codes "  " }) nothing
    ≡ (nothing, raised value_error)
unfolding upsert_entity
unnamed = refl

counted :
    count cents lower
      (run cents lower digests (upserts ann ∷ asserts likes ∷ indexes note ∷ []) nothing)
    ≡ (3, (2, 2))
unfolding count run text_eq
counted = refl

-- the entities stay when the graph's name is refused
unknown_graph :
    (add_assertion cents lower digests (record likes { graph_name = codes "moods" }) nothing).1
    ≡ raised value_error
unfolding add_assertion text_eq
unknown_graph = refl

upsert_entity-IsUpdate_example :
    (k : KnowledgeGraph ℕ) × (row : KnowledgeEntity ℕ) × (upsert_entity cents lower digests ann
        with_ann
      ≡ (k, done row))
    × IsUpdate cents lower digests ann ann_row row
    × (get_entity (entity_id_of cents lower digests (codes "ann") []) k ≡ done row)
    × ((id : Text)
        → (entity_id_of cents lower digests (codes "ann") [] == id) ≡ false
        → get_entity id k ≡ get_entity id with_ann)
unfolding get_entity text_eq strip entity_id_of
upsert_entity-IsUpdate_example =
    upsert_entity-IsUpdate cents lower digests cents-IsOrder ann ann_row with_ann refl refl

run-IsLinked_example :
    IsLinked
      (run cents lower digests (upserts ann ∷ asserts likes ∷ clears ∷ indexes note ∷ []) nothing)
run-IsLinked_example =
    run-IsLinked cents lower digests (upserts ann ∷ asserts likes ∷ clears ∷ indexes note ∷ [])
      nothing tt

abbrev asked : AssertionFilter ℕ
asked = record {
  subject = some (codes "ann");
  predicate = none;
  object = none;
  scope = [];
  status = codes "active";
  at_time = some 4;
  memory_ids = [];
  limit = some 3;
}

abbrev liked : KnowledgeGraph ℕ
liked = run cents lower digests (asserts likes ∷ []) nothing

query-Satisfies_example :
    All (Satisfies cents lower asked) (query cents lower asked liked)
    × All (InScope cents lower []) (query cents lower asked liked)
    × ((limit : ℕ) → asked.limit ≡ some limit → length (query cents lower asked liked) ≤ limit)
query-Satisfies_example = query-Satisfies cents lower asked liked
