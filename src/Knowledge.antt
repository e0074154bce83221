-- ===== src/Knowledge.antt =====
-- knowledge.py: entities and assertions about them, beside the graph in which each assertion is a
-- relation. The graph has a connection of its own: an error of the graph leaves the tables as they
-- were written.
pub mod Queries
pub mod Entities
pub mod Links
pub mod Answers
mod Tests
use agent_memory_living_memo.Prelude.{
  ℕ, Bool, true, false, not, ◌&&◌, ◌||◌, Option, none, some, List, [], ◌∷◌, ◌++◌, map, Text,
  Text_eq, codes, ◌==◌, contains, filter_by, is_empty, take, if◌then◌else◌,
}
use agent_memory_living_memo.Prelude.Dict
use agent_memory_living_memo.Prelude.Floats.{Floats, clamp_low, fmax}
use agent_memory_living_memo.Prelude.Results.{Result, raised, done, and_then}
use agent_memory_living_memo.Prelude.Sort.{sort_by}
use agent_memory_living_memo.Prelude.Strings.{strip, split, join, norm}
use agent_memory_living_memo.Prelude.Strings.Order.{sorted_set}
use agent_memory_living_memo.Schema.{Dict, MemoryEnvelope, RelationItem}
use agent_memory_living_memo.Schema.Host.{Error}
use agent_memory_living_memo.Schema.Host.Error.{value_error, key_error}
use agent_memory_living_memo.Schema.Modality.{or_value}
use agent_memory_living_memo.Schema.Values.{Json}
use agent_memory_living_memo.Graph.{GraphRow, TemporalRelation, add_relation}
use agent_memory_living_memo.Facts.{Conflict, put_conflict, FactRecord}
use agent_memory_living_memo.Store.{replace_row}

pub record KnowledgeEntity (N : Type 0) : Type 0 where
  pub entity_id : Text
  pub name : Text
  pub entity_type : Text
  pub aliases : List Text
  pub scope : Dict N
  pub source_memory_ids : List Text
  pub confidence : N
  pub status : Text
  pub created_at : N
  pub updated_at : N

pub record KnowledgeAssertion (N : Type 0) : Type 0 where
  pub assertion_id : Text
  pub subject : Text
  pub predicate : Text
  pub object : Text
  pub source_memory_id : Text
  pub subject_entity_id : Text
  pub object_entity_id : Option Text
  pub object_kind : Text
  pub fact_id : Option Text
  pub scope : Dict N
  pub graph_name : Text
  pub valid_from : Option N
  pub valid_to : Option N
  pub observed_at : N
  pub confidence : N
  pub status : Text
  pub reason : Text
  pub supersedes : List Text
  pub superseded_by : Option Text

-- The tables `kg_entities` and `kg_assertions` by their ids, `kg_conflicts`, and the graph's table.
pub record KnowledgeGraph (N : Type 0) : Type 0 where
  pub entities : List (Text × KnowledgeEntity N)
  pub assertions : List (Text × KnowledgeAssertion N)
  pub conflicts : List (Conflict N)
  pub graph : List (GraphRow N)

-- the arguments of `upsert_entity`
pub record NewEntity (N : Type 0) : Type 0 where
  pub name : Text
  pub entity_type : Text
  pub aliases : List Text
  pub scope : Dict N
  pub source_memory_id : Option Text
  pub confidence : N
  pub created_at : N
  pub status : Text

-- The arguments of `add_assertion`; an empty text stands for its default.
pub record NewAssertion (N : Type 0) : Type 0 where
  pub subject : Text
  pub predicate : Text
  pub object : Text
  pub source_memory_id : Text
  pub scope : Dict N
  pub object_kind : Text
  pub graph_name : Text
  pub fact_id : Option Text
  pub valid_from : Option N
  pub valid_to : Option N
  pub observed_at : N
  pub confidence : N
  pub status : Text
  pub reason : Text
  pub supersedes : List Text

-- What the id of an assertion is the hash of.
pub record AssertionKey (N : Type 0) : Type 0 where
  pub subject : Text
  pub predicate : Text
  pub object : Text
  pub source_memory_id : Text
  pub fact_id : Option Text
  pub valid_from : Option N
  pub valid_to : Option N

-- The SHA-256 hex digests of the JSON texts of an entity's name and scope, and of a key.
pub record Digests (N : Type 0) : Type 0 where
  pub entity : Text → Dict N → Text
  pub assertion : AssertionKey N → Text

abbrev pub or_default : Text → Text → Text
or_default [] default = default
or_default (c ∷ s) default = c ∷ s

abbrev pub sources_of : Option Text → List Text
sources_of none = []
sources_of (some []) = []
sources_of (some (c ∷ s)) = (c ∷ s) ∷ []

unfoldable pub clean_alias : Text → Text
unfolding strip split join
clean_alias value = join (32 ∷ []) (split (strip value))

-- the names of an entity that is new: its cleaned aliases that are not empty, and its name
unfoldable pub own_aliases : List Text → Text → List Text
unfolding clean_alias filter_by is_empty sorted_set
own_aliases aliases name =
    sorted_set (filter_by (λ item. not (is_empty item)) (map clean_alias aliases) ++ name ∷ [])

module _ {N : Type 0} where
  unfoldable pub clear : KnowledgeGraph N → KnowledgeGraph N
  clear k = record k { entities = []; assertions = []; conflicts = [] }

  unfoldable pub get_entity : Text → KnowledgeGraph N → Result Error (KnowledgeEntity N)
  unfolding Dict.get
  get_entity entity_id k = elim (Dict.get entity_id k.entities) [
    | none ↦ raised key_error
    | some entity ↦ done entity
  ]

  unfoldable pub get_assertion : Text → KnowledgeGraph N → Result Error (KnowledgeAssertion N)
  unfolding Dict.get
  get_assertion assertion_id k = elim (Dict.get assertion_id k.assertions) [
    | none ↦ raised key_error
    | some assertion ↦ done assertion
  ]

  abbrev pub superseded_assertion : Text → KnowledgeAssertion N → KnowledgeAssertion N
  superseded_assertion by a = record a { status = codes "superseded"; superseded_by = some by }

  -- UPDATE kg_assertions SET status = ?, superseded_by = ? WHERE assertion_id = ?
  unfoldable pub mark_assertion :
      Text → Text → List (Text × KnowledgeAssertion N) → List (Text × KnowledgeAssertion N)
  mark_assertion by old [] = []
  mark_assertion by old ((id, a) ∷ rows) =
      (id, if id == old then superseded_assertion by a else a) ∷ mark_assertion by old rows

  -- the two statements for each superseded id
  unfoldable pub supersede_all :
      KnowledgeAssertion N → List Text → KnowledgeGraph N → KnowledgeGraph N
  unfolding mark_assertion put_conflict
  supersede_all a [] k = k
  supersede_all a (old ∷ olds) k = supersede_all a olds (record k {
    assertions = mark_assertion a.assertion_id old k.assertions;
    conflicts =
        put_conflict
          (record {
            superseding = a.assertion_id;
            superseded = old;
            reason = a.reason;
            created_at = a.observed_at;
          })
          k.conflicts;
  })

module _ (F : Floats) (lower : Text → Text) (digests : Digests F.Float) where
  open F use {Float, lt}

  unfoldable pub entity_id_of : Text → Dict Float → Text
  unfolding norm take
  entity_id_of name scope = codes "ent_" ++ take 24 (digests.entity (norm lower name) scope)

  -- the row that `upsert_entity` writes, beside the row that is there
  unfoldable pub entity_row :
      NewEntity Float → Text → Option (KnowledgeEntity Float) → KnowledgeEntity Float
  unfolding entity_id_of own_aliases sorted_set clamp_low fmax
  entity_row e name none = record {
    entity_id = entity_id_of name e.scope;
    name = name;
    entity_type = or_default e.entity_type (codes "entity");
    aliases = own_aliases e.aliases name;
    scope = e.scope;
    source_memory_ids = sources_of e.source_memory_id;
    confidence = clamp_low F e.confidence;
    status = or_default e.status (codes "active");
    created_at = e.created_at;
    updated_at = e.created_at;
  }
  entity_row e name (some existing) = record {
    entity_id = entity_id_of name e.scope;
    name = name;
    entity_type = or_default e.entity_type (codes "entity");
    aliases = sorted_set (existing.aliases ++ own_aliases e.aliases name);
    scope = e.scope;
    source_memory_ids = sorted_set (existing.source_memory_ids ++ sources_of e.source_memory_id);
    confidence = fmax F existing.confidence (clamp_low F e.confidence);
    status = or_default e.status (codes "active");
    created_at = existing.created_at;
    updated_at = fmax F e.created_at existing.updated_at;
  }

  -- The tables after the call, and the entity; an empty name raises before anything is written.
  unfoldable pub upsert_entity :
      NewEntity Float
      → KnowledgeGraph Float
      → KnowledgeGraph Float × Result Error (KnowledgeEntity Float)
  unfolding strip is_empty entity_row entity_id_of Dict.get replace_row get_entity
  upsert_entity e k =
      let name = strip e.name in
      let id = entity_id_of name e.scope in
      let written : KnowledgeGraph Float = record k {
        entities = replace_row id (entity_row e name (Dict.get id k.entities)) k.entities;
      } in
      if is_empty name then (k, raised value_error) else (written, get_entity id written)

  -- the entity that an assertion names
  abbrev pub named_entity : NewAssertion Float → Text → Text → NewEntity Float
  named_entity a name entity_type = record {
    name = name;
    entity_type = entity_type;
    aliases = [];
    scope = a.scope;
    source_memory_id = some a.source_memory_id;
    confidence = a.confidence;
    created_at = a.observed_at;
    status = codes "active";
  }

  -- the arguments with the four names stripped
  abbrev pub cleaned_names : NewAssertion Float → NewAssertion Float
  cleaned_names a = record a {
    subject = strip a.subject;
    predicate = strip a.predicate;
    object = strip a.object;
    source_memory_id = strip a.source_memory_id;
    object_kind = or_default a.object_kind (codes "entity");
  }

  unfoldable pub assertion_id_of : NewAssertion Float → Text
  unfolding norm take
  assertion_id_of a =
      codes "kg_"
      ++ take 24 (
          digests.assertion (record {
            subject = norm lower a.subject;
            predicate = norm lower a.predicate;
            object = norm lower a.object;
            source_memory_id = a.source_memory_id;
            fact_id = a.fact_id;
            valid_from = a.valid_from;
            valid_to = a.valid_to;
          }))

  -- the record that `add_assertion` stores
  unfoldable pub assertion_of : NewAssertion Float → Text → Option Text → KnowledgeAssertion Float
  unfolding assertion_id_of clamp_low filter_by is_empty
  assertion_of a subject_entity_id object_entity_id = record {
    assertion_id = assertion_id_of a;
    subject = a.subject;
    predicate = a.predicate;
    object = a.object;
    source_memory_id = a.source_memory_id;
    subject_entity_id = subject_entity_id;
    object_entity_id = object_entity_id;
    object_kind = a.object_kind;
    fact_id = a.fact_id;
    scope = a.scope;
    graph_name = or_default a.graph_name (codes "knowledge");
    valid_from = a.valid_from;
    valid_to = a.valid_to;
    observed_at = a.observed_at;
    confidence = clamp_low F a.confidence;
    status = or_default a.status (codes "active");
    reason = a.reason;
    supersedes = filter_by (λ item. not (is_empty item)) a.supersedes;
    superseded_by = none;
  }

  abbrev pub knowledge_source : Option (Json Float)
  knowledge_source = some (Json.text (codes "knowledge_graph"))

  abbrev pub assertion_relation : KnowledgeAssertion Float → TemporalRelation Float
  assertion_relation a = record {
    subject = a.subject;
    predicate = a.predicate;
    object = a.object;
    memory_id = a.source_memory_id;
    graph_name = [];
    valid_from = a.valid_from;
    valid_to = a.valid_to;
    confidence = a.confidence;
    source = knowledge_source;
    created_at = a.observed_at;
  }

  abbrev pub superseding_relation : KnowledgeAssertion Float → Text → TemporalRelation Float
  superseding_relation a old = record {
    subject = a.assertion_id;
    predicate = codes "supersedes";
    object = old;
    memory_id = a.source_memory_id;
    graph_name = [];
    valid_from = none;
    valid_to = none;
    confidence = a.confidence;
    source = knowledge_source;
    created_at = a.observed_at;
  }

  -- the loop of `_index_assertion_graph`; the rows after it, and whether it raised no ValueError
  unfoldable pub index_superseded :
      KnowledgeAssertion Float → List Text → List (GraphRow Float) → List (GraphRow Float) × Bool
  unfolding add_relation
  index_superseded a [] rows = (rows, true)
  index_superseded a (old ∷ olds) rows =
      elim (add_relation F lower (superseding_relation a old) (some (codes "conflict")) rows) [
        | none ↦ (rows, false)
        | some (rows', relation) ↦ index_superseded a olds rows'
      ]

  unfoldable pub index_assertion_graph :
      KnowledgeAssertion Float → List (GraphRow Float) → List (GraphRow Float) × Bool
  unfolding add_relation index_superseded
  index_assertion_graph a rows =
      elim (add_relation F lower (assertion_relation a) (some a.graph_name) rows) [
        | none ↦ (rows, false)
        | some (rows', relation) ↦ index_superseded a a.supersedes rows'
      ]

  -- The statements of the last transaction, and the graph.
  unfoldable pub store_assertion :
      KnowledgeAssertion Float
      → KnowledgeGraph Float
      → KnowledgeGraph Float × Result Error (KnowledgeAssertion Float)
  unfolding replace_row supersede_all index_assertion_graph get_assertion
  store_assertion a k =
      let k' =
        supersede_all a a.supersedes
          (record k { assertions = replace_row a.assertion_id a k.assertions }) in
      let indexed : List (GraphRow Float) × Bool = index_assertion_graph a k'.graph in
      let k'' : KnowledgeGraph Float = record k' { graph = indexed.0 } in
      (k'', if indexed.1 then get_assertion a.assertion_id k'' else raised value_error)

  -- `add_assertion` from its second entity on
  abbrev pub with_object :
      NewAssertion Float
      → Text
      → KnowledgeGraph Float × Result Error (KnowledgeEntity Float)
      → KnowledgeGraph Float × Result Error (KnowledgeAssertion Float)
  with_object a subject_entity_id (k, raised e) = (k, raised e)
  with_object a subject_entity_id (k, done object) =
      store_assertion (assertion_of a subject_entity_id (some object.entity_id)) k

  -- `add_assertion` from its first entity on
  abbrev pub with_subject :
      NewAssertion Float
      → KnowledgeGraph Float × Result Error (KnowledgeEntity Float)
      → KnowledgeGraph Float × Result Error (KnowledgeAssertion Float)
  with_subject a (k, raised e) = (k, raised e)
  with_subject a (k, done subject) =
      if a.object_kind == codes "entity"
      then with_object a subject.entity_id
          (upsert_entity (named_entity a a.object (codes "object")) k)
      else store_assertion (assertion_of a subject.entity_id none) k

  -- The tables after the call, and the assertion or the error that was raised.
  unfoldable pub add_assertion :
      NewAssertion Float
      → KnowledgeGraph Float
      → KnowledgeGraph Float × Result Error (KnowledgeAssertion Float)
  unfolding strip is_empty upsert_entity assertion_of store_assertion
  add_assertion raw k =
      let a = cleaned_names raw in
      if is_empty a.subject
        || is_empty a.predicate
        || is_empty a.object
        || is_empty a.source_memory_id
      then (k, raised value_error)
      else with_subject a (upsert_entity (named_entity a a.subject (codes "subject")) k)
