-- ===== src/Facts.antt =====
-- facts.py: the ledger of facts. A fact that supersedes others marks their rows and records the
-- conflicts, and all of it is mirrored in the graph, which has a connection of its own: an error
-- takes back the ledger's changes and not the graph's. The ledger has no knowledge graph attached;
-- Vault has what `add_fact` does to one after the commit.
pub mod Rows
pub mod Status
mod Tests
use agent_memory_living_memo.Prelude.{
  ℕ, Bool, true, false, not, ◌&&◌, ◌||◌, Option, none, some, List, [], ◌∷◌, ◌++◌, map, Text,
  Text_eq, codes, ◌==◌, all_of, filter_by, is_empty, take, length, if◌then◌else◌,
}
use agent_memory_living_memo.Prelude.Dict
use agent_memory_living_memo.Prelude.Floats.{Floats, clamp_low}
use agent_memory_living_memo.Prelude.Results.{Result, raised, done}
use agent_memory_living_memo.Prelude.Sort.{sort_by}
use agent_memory_living_memo.Prelude.Strings.{strip, norm}
use agent_memory_living_memo.Schema.{Dict}
use agent_memory_living_memo.Schema.Values.{Json, json_eq}
use agent_memory_living_memo.Graph.{GraphRow, TemporalRelation, add_relation, same_time, of_bool}

pub record FactRecord (N : Type 0) : Type 0 where
  pub fact_id : Text
  pub subject : Text
  pub predicate : Text
  pub object : Text
  pub source_memory_id : Text
  pub scope : Dict N
  pub status : Text
  pub supersedes : List Text
  pub superseded_by : Option Text
  pub reason : Text
  pub valid_from : Option N
  pub valid_to : Option N
  pub confidence : N
  pub created_at : N

-- A row of `fact_conflicts`, filed under the superseding and the superseded id.
pub record Conflict (N : Type 0) : Type 0 where
  pub superseding : Text
  pub superseded : Text
  pub reason : Text
  pub created_at : N

-- What the id of a fact is the hash of.
pub record FactKey (N : Type 0) : Type 0 where
  pub subject : Text
  pub predicate : Text
  pub object : Text
  pub source_memory_id : Text
  pub valid_from : Option N
  pub valid_to : Option N

-- The two tables, facts by their id, and the table of the graph.
pub record Ledger (N : Type 0) : Type 0 where
  pub facts : List (Text × FactRecord N)
  pub conflicts : List (Conflict N)
  pub graph : List (GraphRow N)

-- the arguments of `add_fact`, with the time of creation
pub record NewFact (N : Type 0) : Type 0 where
  pub subject : Text
  pub predicate : Text
  pub object : Text
  pub source_memory_id : Text
  pub scope : Dict N
  pub confidence : N
  pub valid_from : Option N
  pub valid_to : Option N
  pub supersedes : List Text
  pub reason : Text
  pub created_at : N

module _ {N : Type 0} where
  abbrev pub superseded_row : Text → FactRecord N → FactRecord N
  superseded_row by r = record r { status = codes "superseded"; superseded_by = some by }

  -- UPDATE facts SET status = 'superseded', superseded_by = ? WHERE fact_id = ?
  unfoldable pub mark : Text → Text → List (Text × FactRecord N) → List (Text × FactRecord N)
  mark by old [] = []
  mark by old ((id, r) ∷ facts) =
      (id, if id == old then superseded_row by r else r) ∷ mark by old facts

  -- INSERT OR REPLACE INTO fact_conflicts
  unfoldable pub put_conflict : Conflict N → List (Conflict N) → List (Conflict N)
  unfolding filter_by
  put_conflict c conflicts =
      filter_by (λ d. not ((d.superseding == c.superseding) && (d.superseded == c.superseded)))
        conflicts
      ++ c ∷ []

-- `digest` stands for the SHA-256 hex digest of the JSON text of a key.
module _ (F : Floats) (lower : Text → Text) (digest : FactKey F.Float → Text) where
  open F use {Float, lt}

  unfoldable pub fact_id_of : FactKey Float → Text
  unfolding norm take
  fact_id_of k =
      codes "fact_"
      ++ take 24 (
          digest (record k {
            subject = norm lower k.subject;
            predicate = norm lower k.predicate;
            object = norm lower k.object;
          }))

  -- the record that `add_fact` stores
  unfoldable pub record_of : NewFact Float → FactRecord Float
  unfolding strip fact_id_of filter_by is_empty clamp_low
  record_of f =
      let subject = strip f.subject in
      let predicate = strip f.predicate in
      let object = strip f.object in
      let source = strip f.source_memory_id in
      record {
        fact_id = fact_id_of (record {
          subject = subject;
          predicate = predicate;
          object = object;
          source_memory_id = source;
          valid_from = f.valid_from;
          valid_to = f.valid_to;
        });
        subject = subject;
        predicate = predicate;
        object = object;
        source_memory_id = source;
        scope = f.scope;
        status = codes "active";
        supersedes = filter_by (λ item. not (is_empty item)) f.supersedes;
        superseded_by = none;
        reason = f.reason;
        valid_from = f.valid_from;
        valid_to = f.valid_to;
        confidence = clamp_low F f.confidence;
        created_at = f.created_at;
      }

  abbrev pub ledger_source : Option (Json Float)
  ledger_source = some (Json.text (codes "fact_ledger"))

  -- `_index_fact_graph`; `none` is the ValueError of `add_relation`
  unfoldable pub index_fact_graph :
      FactRecord Float → List (GraphRow Float) → Option (List (GraphRow Float))
  unfolding add_relation
  index_fact_graph r graph =
      elim (add_relation F lower
        (record {
          subject = r.subject;
          predicate = r.predicate;
          object = r.object;
          memory_id = r.source_memory_id;
          graph_name = [];
          valid_from = r.valid_from;
          valid_to = r.valid_to;
          confidence = r.confidence;
          source = ledger_source;
          created_at = r.created_at;
        })
        (some (codes "facts")) graph) [ none ↦ none | some (rows, relation) ↦ some rows ]

  unfoldable pub index_conflict_graph :
      FactRecord Float → Text → List (GraphRow Float) → Option (List (GraphRow Float))
  unfolding add_relation
  index_conflict_graph r old graph =
      elim (add_relation F lower
        (record {
          subject = r.fact_id;
          predicate = codes "supersedes";
          object = old;
          memory_id = r.source_memory_id;
          graph_name = [];
          valid_from = none;
          valid_to = none;
          confidence = r.confidence;
          source = ledger_source;
          created_at = r.created_at;
        })
        (some (codes "conflict")) graph) [ none ↦ none | some (rows, relation) ↦ some rows ]

  -- the two statements of the loop, after the graph's
  unfoldable pub marked_ledger :
      FactRecord Float → Text → List (GraphRow Float) → Ledger Float → Ledger Float
  unfolding mark put_conflict
  marked_ledger r old graph l = record {
    facts = mark r.fact_id old l.facts;
    conflicts =
        put_conflict
          (record {
            superseding = r.fact_id;
            superseded = old;
            reason = r.reason;
            created_at = r.created_at;
          })
          l.conflicts;
    graph = graph;
  }

  -- The loop over the superseded ids. An error leaves the graph as it is by then.
  unfoldable pub supersede_all :
      FactRecord Float → List Text → Ledger Float → Result (List (GraphRow Float)) (Ledger Float)
  unfolding marked_ledger index_conflict_graph
  supersede_all r [] l = done l
  supersede_all r (old ∷ olds) l = elim (index_conflict_graph r old l.graph) [
    | none ↦ raised l.graph
    | some graph ↦ supersede_all r olds (marked_ledger r old graph l)
  ]

  unfoldable pub store_fact :
      FactRecord Float → Ledger Float → Result (List (GraphRow Float)) (Ledger Float)
  unfolding supersede_all index_fact_graph Dict.put
  store_fact r l = elim (index_fact_graph r l.graph) [
    | none ↦ raised l.graph
    | some graph ↦
        supersede_all r r.supersedes
          (record { facts = Dict.put r.fact_id r l.facts; conflicts = l.conflicts; graph = graph })
  ]

  -- `none` is the KeyError of an unknown id.
  unfoldable pub get : Text → Ledger Float → Option (FactRecord Float)
  unfolding Dict.get
  get fact_id l = Dict.get fact_id l.facts

  -- The ledger after the call, and the record that is returned; `none` is a ValueError.
  unfoldable pub add_fact : NewFact Float → Ledger Float → Ledger Float × Option (FactRecord Float)
  unfolding record_of store_fact get is_empty
  add_fact f l =
      let r = record_of f in
      if is_empty r.subject
        || is_empty r.predicate
        || is_empty r.object
        || is_empty r.source_memory_id
      then (l, none)
      else elim (store_fact r l) [
        | raised graph ↦ (record l { graph = graph }, none)
        | done stored ↦ (stored, get r.fact_id stored)
      ]

  -- ORDER BY confidence DESC, created_at DESC
  unfoldable pub fact_before : FactRecord Float → FactRecord Float → Bool
  fact_before a b =
      not (lt a.confidence b.confidence)
      && (lt b.confidence a.confidence || not (lt a.created_at b.created_at))

  abbrev pub all_facts : Ledger Float → List (FactRecord Float)
  all_facts l = map (λ item. item.1) l.facts

  unfoldable pub facts_for_memory : Text → Ledger Float → List (FactRecord Float)
  unfolding fact_before sort_by filter_by
  facts_for_memory memory_id l =
      sort_by fact_before (filter_by (λ r. r.source_memory_id == memory_id) (all_facts l))

  abbrev pub cut : Option ℕ → List (FactRecord Float) → List (FactRecord Float)
  cut none facts = facts
  cut (some limit) facts = take limit facts

  -- `all(fact.scope.get(key) == value for key, value in scope.items())`
  unfoldable pub in_scope : Dict Float → FactRecord Float → Bool
  unfolding all_of Dict.get json_eq
  in_scope scope r =
      all_of
        (λ item.
          json_eq (same_time F lower) (of_bool F lower)
            (elim (Dict.get item.0 r.scope) [ none ↦ Json.null | some v ↦ v ]) item.1)
        scope

  -- An empty status or scope is no condition.
  unfoldable pub list_facts : Dict Float → Text → Option ℕ → Ledger Float → List (FactRecord Float)
  unfolding fact_before sort_by filter_by in_scope is_empty take
  list_facts scope status limit l =
      let rows = cut limit (
        sort_by fact_before
          (filter_by (λ r. is_empty status || (r.status == status)) (all_facts l))) in
      cut limit (if is_empty scope then rows else filter_by (in_scope scope) rows)

  unfoldable pub conflicts_for_fact : Text → Ledger Float → List (Conflict Float)
  unfolding sort_by filter_by
  conflicts_for_fact fact_id l =
      sort_by (λ c d. not (lt c.created_at d.created_at))
        (filter_by (λ c. (c.superseding == fact_id) || (c.superseded == fact_id)) l.conflicts)

  -- The counts of `memory_fact_status`, of the active and of the superseded facts.
  unfoldable pub memory_fact_status : Text → Ledger Float → ℕ × ℕ
  unfolding facts_for_memory filter_by
  memory_fact_status memory_id l =
      let facts = facts_for_memory memory_id l in
      (
        length (filter_by (λ r. r.status == codes "active") facts),
        length (filter_by (λ r. r.status == codes "superseded") facts),
      )

  unfoldable pub count : Ledger Float → ℕ
  count l = length l.facts

  -- The two loops of `rebuild_graph_index`. An error leaves the graph as it is by then, and `false`.
  unfoldable pub index_facts :
      List (FactRecord Float) → List (GraphRow Float) → List (GraphRow Float) × Bool
  unfolding index_fact_graph
  index_facts [] graph = (graph, true)
  index_facts (r ∷ rs) graph = elim (index_fact_graph r graph) [
    | none ↦ (graph, false)
    | some rows ↦ index_facts rs rows
  ]

  unfoldable pub index_conflicts :
      List (Text × FactRecord Float)
      → List (Conflict Float)
      → List (GraphRow Float)
      → List (GraphRow Float) × Bool
  unfolding index_conflict_graph Dict.get
  index_conflicts facts [] graph = (graph, true)
  index_conflicts facts (c ∷ cs) graph = elim (Dict.get c.superseding facts) [
    | none ↦ index_conflicts facts cs graph
    | some r ↦ elim (index_conflict_graph r c.superseded graph) [
      | none ↦ (graph, false)
      | some rows ↦ index_conflicts facts cs rows
    ]
  ]

  unfoldable pub rebuild_graph_index : Ledger Float → Ledger Float × Bool
  unfolding index_facts index_conflicts sort_by
  rebuild_graph_index l =
      let (with_facts, fine) =
        index_facts (sort_by (λ a b. not (lt b.created_at a.created_at)) (all_facts l)) l.graph in
      let (with_conflicts, done_all) =
        index_conflicts l.facts (sort_by (λ a b. not (lt b.created_at a.created_at)) l.conflicts)
          with_facts in
      if fine
      then (record l { graph = with_conflicts }, done_all)
      else (record l { graph = with_facts }, false)
