-- ===== src/Graph/Walk.antt =====
-- `walk_related_memory_ids`: the memories of the relations that touch the terms, and of those that
-- touch their names, hop by hop.
use agent_memory_living_memo.Prelude.{
  ℕ, zero, suc, ◌+◌, ◌*◌, Bool, false, not, ◌&&◌, ◌||◌, Option, none, some, List, [], ◌∷◌, ◌++◌,
  map, Text, Text_eq, contains, dedup, filter_by, is_empty, take, if◌then◌else◌, max,
}
use agent_memory_living_memo.Prelude.Dict
use agent_memory_living_memo.Prelude.Floats.{Floats, fmax}
use agent_memory_living_memo.Prelude.Strings.{norm}
use agent_memory_living_memo.Prelude.Sort.{sort_by}
use agent_memory_living_memo.Graph.{GraphRow, graph_name_of, active_in, is_active_at}

-- The arguments of the walk beside its terms.
pub record Walk (N : Type 0) : Type 0 where
  pub limit : ℕ
  pub max_hops : ℕ
  pub at_time : Option N
  pub graph_names : List Text

-- `[self._graph_name(item) for item in graph_names]`; `none` is a ValueError
unfoldable pub graph_names_of : (Text → Text) → List Text → Option (List Text)
unfolding graph_name_of
graph_names_of lower [] = some []
graph_names_of lower (v ∷ vs) =
    let names = graph_names_of lower vs in
    elim (graph_name_of lower (some v) false) [
      | none ↦ none
      | some name ↦ elim names [ none ↦ none | some rest ↦ some (name ∷ rest) ]
    ]

-- `scan` is the order in which the database finds the rows of a query that names none.
module _ (F : Floats) (lower : Text → Text)
    (scan : List (GraphRow F.Float) → List (GraphRow F.Float)) where
  open F use {Float, lt, add, sub, mul, of_ℕ, hundredths}

  unfoldable pub touches : List Text → List Text → Option Float → GraphRow Float → Bool
  unfolding contains is_empty is_active_at
  touches frontier graphs at_time row =
      (contains frontier row.subject_norm
        || contains frontier row.predicate_norm
        || contains frontier row.object_norm)
      && (is_empty graphs || contains graphs row.relation.graph_name)
      && active_in F lower at_time row.relation

  -- the score and the creation time of a memory
  abbrev pub Scores : Type 0
  Scores = List (Text × (Float × Float))

  unfoldable pub score_row : Float → GraphRow Float → Scores → Scores
  unfolding Dict.get Dict.put
  score_row weight row scores =
      let r = row.relation in
      let score = mul r.confidence weight in
      elim (Dict.get r.memory_id scores) [
        | none ↦ Dict.put r.memory_id (score, r.created_at) scores
        | some (current, created) ↦
            if lt current score then Dict.put r.memory_id (score, r.created_at) scores else scores
      ]

  unfoldable pub score_rows : Float → List (GraphRow Float) → Scores → Scores
  unfolding score_row
  score_rows weight [] scores = scores
  score_rows weight (row ∷ rows) scores = score_rows weight rows (score_row weight row scores)

  -- the names that the next hop starts from
  unfoldable pub ends_of : List (GraphRow Float) → List Text
  ends_of [] = []
  ends_of (row ∷ rows) = row.subject_norm ∷ row.object_norm ∷ ends_of rows

  unfoldable pub hop_weight : ℕ → Float
  unfolding fmax
  hop_weight hop = fmax F (hundredths 10) (sub (of_ℕ 1) (mul (of_ℕ hop) (hundredths 15)))

  -- The rows that a hop reads.
  unfoldable pub hop_rows :
      Walk Float → List Text → List (GraphRow Float) → List Text → List (GraphRow Float)
  unfolding touches take filter_by
  hop_rows w graphs rows frontier =
      take (max (w.limit * 4) w.limit) (scan (filter_by (touches frontier graphs w.at_time) rows))

  -- The loop: `left` hops from the hop number `hop` on.
  unfoldable pub hops :
      Walk Float
      → List Text
      → List (GraphRow Float)
      → ℕ
      → ℕ
      → List Text
      → List Text
      → Scores
      → Scores
  unfolding hop_rows score_rows ends_of hop_weight contains filter_by is_empty dedup
  hops w graphs rows zero hop frontier seen scores = scores
  hops w graphs rows (suc left) hop frontier seen scores =
      let front = filter_by (λ item. not (is_empty item) && not (contains seen item)) frontier in
      let read = hop_rows w graphs rows front in
      let later =
        hops w graphs rows left (hop + 1) (dedup (ends_of read)) (front ++ seen)
          (score_rows (hop_weight hop) read scores) in
      if is_empty front then scores else later

  -- `sorted(..., reverse=True)` on pairs of a score and a time
  unfoldable pub scored_before : Text × (Float × Float) → Text × (Float × Float) → Bool
  scored_before (a, (s, t)) (b, (u, v)) = not (lt s u || not (lt u s) && lt t v)

  unfoldable pub walk_related_memory_ids :
      List Text → Walk Float → List (GraphRow Float) → Option (List Text)
  unfolding hops norm filter_by is_empty dedup graph_names_of scored_before sort_by take
  walk_related_memory_ids terms w rows =
      let normalized = filter_by (λ t. not (is_empty t)) (map (norm lower) terms) in
      if is_empty normalized then some [] else elim (graph_names_of lower w.graph_names) [
        | none ↦ none
        | some graphs ↦ some (
            map (λ item. item.0)
              (take w.limit (
                sort_by scored_before
                  (hops w graphs rows (max 1 w.max_hops) 0 (dedup normalized) [] []))))
      ]
