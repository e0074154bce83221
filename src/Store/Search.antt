-- ===== src/Store/Search.antt =====
-- The queries of the store: by text, by importance, and by nearness of addresses. All of them cut
-- the rows that SQLite returns and filter them by scope and tags.
use agent_memory_living_memo.Prelude.{
  ℕ, ◌*◌, Bool, true, false, not, ◌&&◌, ◌||◌, Option, none, some, List, [], ◌∷◌, ◌++◌, map, Text,
  Text_eq, codes, contains, dedup, all_of, filter_by, is_empty, take, if◌then◌else◌,
}
use agent_memory_living_memo.Prelude.Dict
use agent_memory_living_memo.Prelude.Floats.{Floats}
use agent_memory_living_memo.Prelude.Int.{ℤ}
use agent_memory_living_memo.Prelude.Results.{Result, raised, done, and_then}
use agent_memory_living_memo.Prelude.Sort.{sort_by}
use agent_memory_living_memo.Prelude.Strings.{join, text_before, push_word}
use agent_memory_living_memo.Graph.{same_time, of_bool}
use agent_memory_living_memo.Mobius.{MobiusAddress, MobiusAddress_eq, MobiusIndex, neighbors}
use agent_memory_living_memo.Schema.{Dict, MemoryEnvelope}
use agent_memory_living_memo.Schema.Envelope.{to_dict, from_dict}
use agent_memory_living_memo.Schema.Host.{Error, Host}
use agent_memory_living_memo.Schema.Host.Error.{value_error}
use agent_memory_living_memo.Schema.Values.{Json, json_eq}
use agent_memory_living_memo.Store.{TemporalStore}

-- What SQLite computes: the ids of the rows of the text index that match an expression, best
-- first, those whose text is LIKE a pattern, and the order in which it finds the rows of a table.
-- `none` is an OperationalError.
pub record Sqlite : Type 0 where
  pub fts_available : Bool
  pub fts_match : Text → List (Text × Text) → Option (List Text)
  pub fts_like : Text → List (Text × Text) → Option (List Text)
  pub scan : List (Text × MobiusAddress) → List (Text × MobiusAddress)

-- `re.findall(r"[\w]+", text)`
unfoldable pub words_from : (ℕ → Bool) → Text → Text → List Text
words_from is_word cur [] = push_word cur []
words_from is_word cur (c ∷ s) = elim (is_word c) [
  | true ↦ words_from is_word (cur ++ c ∷ []) s
  | false ↦ push_word cur (words_from is_word [] s)
]

-- `terms.add(term)`
unfoldable pub add_term : Text → List Text → List Text
unfolding contains
add_term term terms = if contains terms term then terms else terms ++ term ∷ []

-- the synonyms that go into a set of terms, in the order of the five tests
unfoldable pub with_synonyms : List Text → List Text
unfolding contains add_term
with_synonyms t0 =
    let has : Text → List Text → Bool = λ term terms. contains terms term in
    let t1 =
      if has (codes "now") t0 || has (codes "latest") t0 || has (codes "active") t0
      then add_term (codes "current") t0
      else t0 in
    let t2 = if has (codes "current") t1 then add_term (codes "now") t1 else t1 in
    let t3 =
      if has (codes "run") t2
      then add_term (codes "commands") (add_term (codes "command") t2)
      else t2 in
    let t4 =
      if has (codes "missing") t3
      then add_term (codes "gaps") (add_term (codes "gap") t3)
      else t3 in
    if has (codes "gap") t4 || has (codes "gaps") t4 then add_term (codes "missing") t4 else t4

module _ {N : Type 0} (h : Host N) where
  -- `RecallPipeline._terms`
  unfoldable pub terms : Text → List Text
  unfolding words_from with_synonyms dedup sort_by text_before
  terms query =
      sort_by text_before (with_synonyms (dedup (words_from h.is_word [] (h.lower query))))

  unfoldable pub fts_expression : Text → Text
  unfolding terms join
  fts_expression query = join (codes " OR ") (terms query)

module _ (F : Floats) (h : Host F.Float) where
  open F use {Float, lt}

  abbrev pub scope_value : Text → Dict Float → Json Float
  scope_value key scope = elim (Dict.get key scope) [ none ↦ Json.null | some v ↦ v ]

  -- `RecallPipeline._matches`; an empty scope and an empty list of tags are no condition
  unfoldable pub matches : Dict Float → List Text → MemoryEnvelope Float → Bool
  unfolding all_of contains json_eq Dict.get
  matches scope tags memory =
      all_of
        (λ item.
          json_eq (same_time F h.lower) (of_bool F h.lower) (scope_value item.0 memory.scope)
            item.1)
        scope
      && all_of (contains memory.tags) tags

  -- `_filter`
  unfoldable pub filter_memories :
      Dict Float → List Text → List (MemoryEnvelope Float) → List (MemoryEnvelope Float)
  unfolding matches filter_by
  filter_memories scope tags memories = filter_by (matches scope tags) memories

  -- `[MemoryEnvelope.from_dict(json.loads(row["envelope_json"])) for row in rows]`
  unfoldable pub read_rows :
      Float → List (MemoryEnvelope Float) → Result Error (List (MemoryEnvelope Float))
  unfolding from_dict to_dict
  read_rows now [] = done []
  read_rows now (row ∷ rows) =
      and_then (from_dict F h now (to_dict row))
        λ memory. and_then (read_rows now rows) λ memories. done (memory ∷ memories)

  -- the rows of `memories` with the given ids
  unfoldable pub joined :
      List Text → List (Text × MemoryEnvelope Float) → List (MemoryEnvelope Float)
  unfolding Dict.get
  joined [] rows = []
  joined (id ∷ ids) rows =
      let rest = joined ids rows in elim (Dict.get id rows) [ none ↦ rest | some row ↦ row ∷ rest ]

  -- ORDER BY importance DESC, created_at DESC
  unfoldable pub important_before : MemoryEnvelope Float → MemoryEnvelope Float → Bool
  important_before a b =
      not (lt a.importance b.importance)
      && (lt b.importance a.importance || not (lt a.created_at b.created_at))

  abbrev pub cut : Option ℕ → List (MemoryEnvelope Float) → List (MemoryEnvelope Float)
  cut none xs = xs
  cut (some n) xs = take n xs

  abbrev pub fourfold : Option ℕ → Option ℕ
  fourfold none = none
  fourfold (some limit) = some (limit * 4)

  abbrev pub at_least : Option Float → MemoryEnvelope Float → Bool
  at_least none m = true
  at_least (some bound) m = not (lt m.importance bound)

  -- the rows that the SQL query of `list_memories` returns
  unfoldable pub ranked_rows :
      Option Float → Option ℕ → TemporalStore Float → List (MemoryEnvelope Float)
  unfolding sort_by important_before filter_by take
  ranked_rows min_importance limit s = cut (fourfold limit) (
      sort_by important_before
        (filter_by (at_least min_importance) (map (λ row. row.1) s.memories)))

  unfoldable pub list_memories :
      Float
      → Dict Float
      → List Text
      → Option Float
      → Option ℕ
      → TemporalStore Float
      → Result Error (List (MemoryEnvelope Float))
  unfolding ranked_rows read_rows filter_memories take
  list_memories now scope tags min_importance limit s =
      and_then (read_rows now (ranked_rows min_importance limit s))
        λ memories. done (cut limit (filter_memories scope tags memories))

  module _ (sql : Sqlite) where
    abbrev pub found_ids : Option (List Text) → List Text
    found_ids none = []
    found_ids (some ids) = ids

    -- the rows that the text index returns
    unfoldable pub matching_rows :
        Text → Text → ℕ → TemporalStore Float → List (MemoryEnvelope Float)
    unfolding joined take
    matching_rows expression query limit s =
        let ids =
          if sql.fts_available
          then found_ids (sql.fts_match expression s.memory_fts)
          else found_ids (sql.fts_like (codes "%" ++ h.lower query ++ codes "%") s.memory_fts) in
        take (limit * 4) (joined ids s.memories)

    unfoldable pub search_text :
        Float
        → Text
        → Dict Float
        → List Text
        → ℕ
        → TemporalStore Float
        → Result Error (List (MemoryEnvelope Float))
    unfolding fts_expression list_memories matching_rows read_rows filter_memories is_empty take
    search_text now query scope tags limit s =
        let expression = fts_expression h query in
        if is_empty expression
        then list_memories now scope tags none (some limit) s
        else and_then (read_rows now (matching_rows expression query limit s))
            (λ memories. done (take limit (filter_memories scope tags memories)))

    -- the ids of the rows whose address is one of the given ones
    unfoldable pub near_ids : List MobiusAddress → List (Text × MobiusAddress) → List Text
    unfolding filter_by contains
    near_ids addresses rows =
        map (λ row. row.0) (filter_by (λ row. contains addresses row.1) (sql.scan rows))

    unfoldable pub by_mobius_neighbors :
        Float
        → MobiusIndex
        → MobiusAddress
        → ℤ
        → Dict Float
        → List Text
        → ℕ
        → TemporalStore Float
        → Result Error (List (MemoryEnvelope Float))
    unfolding neighbors near_ids joined read_rows filter_memories take
    by_mobius_neighbors now grid address depth scope tags limit s =
        elim (neighbors grid address depth) [
          | none ↦ raised value_error
          | some near ↦
              and_then (read_rows now (joined (near_ids near s.mobius_index) s.memories))
                (λ memories. done (take limit (filter_memories scope tags memories)))
        ]
