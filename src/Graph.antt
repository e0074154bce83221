-- ===== src/Graph.antt =====
-- graph.py: relations between named things, each owned by a memory, in named graphs with times of
-- validity. The table is the list of its rows in insertion order.
pub mod Rows
pub mod Queries
pub mod Walk
pub mod Reach
pub mod Nodes
mod Tests
use agent_memory_living_memo.Prelude.{
  ℕ, Bool, true, false, not, ◌&&◌, ◌||◌, Option, none, some, List, [], ◌∷◌, ◌++◌, map, Text,
  Text_eq, codes, ◌==◌, contains, dedup, filter_by, any_of, is_empty, take, if◌then◌else◌,
}
use agent_memory_living_memo.Prelude.Dict
use agent_memory_living_memo.Prelude.Floats.{Floats, le, clamp_low}
use agent_memory_living_memo.Prelude.Sort.{sort_by}
use agent_memory_living_memo.Prelude.Strings.{strip, norm, replace_char}
use agent_memory_living_memo.Schema.{Dict, MemoryEnvelope, RelationItem}
use agent_memory_living_memo.Schema.Values.{Json}

abbrev pub allowed_graph_names : List Text
allowed_graph_names =
    codes "semantic"
    ∷ codes "temporal"
    ∷ codes "multimodal"
    ∷ codes "procedural"
    ∷ codes "provenance"
    ∷ codes "topology"
    ∷ codes "facts"
    ∷ codes "conflict"
    ∷ codes "knowledge"
    ∷ codes "default"
    ∷ []

-- `N` is the type of floats.
pub record TemporalRelation (N : Type 0) : Type 0 where
  pub subject : Text
  pub predicate : Text
  pub object : Text
  pub memory_id : Text
  pub graph_name : Text
  pub valid_from : Option N
  pub valid_to : Option N
  pub confidence : N
  pub source : Option (Json N)
  pub created_at : N

-- A row has the relation's columns and the normal forms of its three names.
pub record GraphRow (N : Type 0) : Type 0 where
  pub relation : TemporalRelation N
  pub subject_norm : Text
  pub predicate_norm : Text
  pub object_norm : Text

-- The arguments of `query`.
pub record Filter (N : Type 0) : Type 0 where
  pub subject : Option Text
  pub predicate : Option Text
  pub object : Option Text
  pub graph_name : Option Text
  pub at_time : Option N
  pub limit : ℕ

abbrev pub given : {N : Type 0} → Option N → Bool
given none = false
given (some t) = true

-- `_graph_name`, over the host's `str.lower`; `none` is the ValueError of an unknown name.
unfoldable pub graph_name_of : (Text → Text) → Option Text → Bool → Option Text
unfolding contains strip norm replace_char is_empty
graph_name_of lower value timed =
    let blank = if timed then codes "temporal" else codes "semantic" in
    elim value [
      | none ↦ some blank
      | some v ↦
          let name = replace_char 32 95 (norm lower v) in
          if is_empty (strip v)
          then some blank
          else if contains allowed_graph_names name
          then some name
          else none
    ]

module _ (F : Floats) (lower : Text → Text) where
  open F use {Float, lt, of_ℕ}

  -- equal floats
  -- the number that Python has a Boolean equal to
  abbrev pub of_bool : Bool → Float
  of_bool b = if b then of_ℕ 1 else of_ℕ 0

  abbrev pub same_time : Float → Float → Bool
  same_time a b = not (lt a b) && not (lt b a)

  -- In a UNIQUE constraint two NULLs are different.
  abbrev pub same_bound : Option Float → Option Float → Bool
  same_bound (some a) (some b) = same_time a b
  same_bound _ _ = false

  -- the rows that the UNIQUE constraint does not let stand together
  unfoldable pub same_key : GraphRow Float → GraphRow Float → Bool
  same_key a b =
      (a.relation.graph_name == b.relation.graph_name)
      && (a.subject_norm == b.subject_norm)
      && (a.predicate_norm == b.predicate_norm)
      && (a.object_norm == b.object_norm)
      && (a.relation.memory_id == b.relation.memory_id)
      && same_bound a.relation.valid_from b.relation.valid_from
      && same_bound a.relation.valid_to b.relation.valid_to

  abbrev pub row_of : TemporalRelation Float → GraphRow Float
  row_of r = record {
    relation = r;
    subject_norm = norm lower r.subject;
    predicate_norm = norm lower r.predicate;
    object_norm = norm lower r.object;
  }

  -- INSERT OR IGNORE
  unfoldable pub insert_row : GraphRow Float → List (GraphRow Float) → List (GraphRow Float)
  unfolding same_key any_of
  insert_row row rows = if any_of (same_key row) rows then rows else rows ++ row ∷ []

  -- The names of the relation are stripped and its confidence is clamped.
  abbrev pub cleaned : TemporalRelation Float → Text → TemporalRelation Float
  cleaned r graph_name = record r {
    subject = strip r.subject;
    predicate = strip r.predicate;
    object = strip r.object;
    graph_name = graph_name;
    confidence = clamp_low F r.confidence;
  }

  -- `add_relation` of the given fields, whose `graph_name` is replaced by the one that is asked for.
  -- `none` is a ValueError, and the table is then as it was. That SQLite refuses a list or a
  -- dictionary as the provenance's source is left out.
  unfoldable pub add_relation :
      TemporalRelation Float
      → Option Text
      → List (GraphRow Float)
      → Option (List (GraphRow Float) × TemporalRelation Float)
  unfolding graph_name_of insert_row strip is_empty clamp_low norm
  add_relation r graph_name rows =
      elim (graph_name_of lower graph_name (given r.valid_from || given r.valid_to)) [
        | none ↦ none
        | some name ↦
            let relation = cleaned r name in
            if is_empty relation.subject || is_empty relation.predicate || is_empty relation.object
            then none
            else some (insert_row (row_of relation) rows, relation)
      ]

  unfoldable pub clear : List (GraphRow Float) → List (GraphRow Float)
  clear rows = []

  -- the relation that an item of a memory gives
  abbrev pub item_relation : MemoryEnvelope Float → RelationItem Float → TemporalRelation Float
  item_relation memory item = record {
    subject = item.subject;
    predicate = item.predicate;
    object = item.object;
    memory_id = memory.id;
    graph_name = [];
    valid_from = item.valid_from;
    valid_to = item.valid_to;
    confidence = elim item.confidence [ none ↦ memory.confidence | some c ↦ c ];
    source = Dict.get (codes "source") memory.provenance;
    created_at = memory.created_at;
  }

  -- The loop of `index_memory`: an item that is refused raises, and the earlier ones are stored.
  unfoldable pub index_items :
      MemoryEnvelope Float
      → List (RelationItem Float)
      → List (GraphRow Float)
      → List (GraphRow Float) × Option (List (TemporalRelation Float))
  unfolding add_relation Dict.get
  index_items memory [] rows = (rows, some [])
  index_items memory (item ∷ items) rows =
      elim (add_relation (item_relation memory item) item.graph_name rows) [
        | none ↦ (rows, none)
        | some (rows', relation) ↦
            let (stored, indexed) = index_items memory items rows' in
            (stored, elim indexed [ none ↦ none | some rs ↦ some (relation ∷ rs) ])
      ]

  unfoldable pub index_memory :
      MemoryEnvelope Float
      → List (GraphRow Float)
      → List (GraphRow Float) × Option (List (TemporalRelation Float))
  unfolding index_items
  index_memory memory rows = index_items memory memory.relations rows

  -- `_relation_is_active_at`, and the clauses on `valid_from` and `valid_to`
  unfoldable pub is_active_at : TemporalRelation Float → Float → Bool
  is_active_at r t =
      (elim r.valid_from [ none ↦ true | some f ↦ le F f t ])
      && (elim r.valid_to [ none ↦ true | some e ↦ le F t e ])

  abbrev pub active_in : Option Float → TemporalRelation Float → Bool
  active_in none r = true
  active_in (some t) r = is_active_at r t

  abbrev pub name_is : Option Text → Text → Bool
  name_is none column = true
  name_is (some value) column = column == norm lower value

  -- the WHERE clauses, with the normal form of the graph's name
  unfoldable pub matches : Filter Float → Option Text → GraphRow Float → Bool
  unfolding is_active_at norm
  matches f graph row =
      (elim graph [ none ↦ true | some g ↦ row.relation.graph_name == g ])
      && name_is f.subject row.subject_norm
      && name_is f.predicate row.predicate_norm
      && name_is f.object row.object_norm
      && active_in f.at_time row.relation

  -- ORDER BY confidence DESC, created_at DESC
  unfoldable pub ranks_before : GraphRow Float → GraphRow Float → Bool
  ranks_before a b =
      not (lt a.relation.confidence b.relation.confidence)
      && (lt b.relation.confidence a.relation.confidence
          || not (lt a.relation.created_at b.relation.created_at))

  -- the graph that `query` asks for; `none` is the ValueError of an unknown name
  abbrev pub wanted_graph : Option Text → Option (Option Text)
  wanted_graph none = some none
  wanted_graph (some v) = elim (graph_name_of lower (some v) false) [
    | none ↦ none
    | some g ↦ some (some g)
  ]

  unfoldable pub selected :
      Filter Float → Option Text → List (GraphRow Float) → List (GraphRow Float)
  unfolding matches ranks_before sort_by filter_by take
  selected f graph rows = take f.limit (sort_by ranks_before (filter_by (matches f graph) rows))

  unfoldable pub query :
      Filter Float → List (GraphRow Float) → Option (List (TemporalRelation Float))
  unfolding selected graph_name_of
  query f rows = elim (wanted_graph f.graph_name) [
    | none ↦ none
    | some graph ↦ some (map (λ row. row.relation) (selected f graph rows))
  ]

  unfoldable pub relations_for_memory : Text → List (GraphRow Float) → List (TemporalRelation Float)
  unfolding sort_by ranks_before filter_by
  relations_for_memory memory_id rows =
      map (λ row. row.relation)
        (sort_by ranks_before (filter_by (λ row. row.relation.memory_id == memory_id) rows))
