-- ===== src/Graph/Nodes.antt =====
-- `relation_nodes_for_memory_ids`: the normal names at the ends of the relations of some memories.
use agent_memory_living_memo.Prelude.{
  not, ◌&&◌, ◌||◌, Option, none, some, List, [], ◌∷◌, ◌++◌, map, Text, Text_eq, contains, dedup,
  filter_by, is_empty, if◌then◌else◌,
}
use agent_memory_living_memo.Prelude.Dict
use agent_memory_living_memo.Prelude.Floats.{Floats}
use agent_memory_living_memo.Prelude.Sort.{sort_by}
use agent_memory_living_memo.Prelude.Strings.{norm}
use agent_memory_living_memo.Graph.{GraphRow, active_in, is_active_at, ranks_before}
use agent_memory_living_memo.Graph.Walk.{graph_names_of}

-- `grouped.setdefault(key, set()).add(value)`, with a set as a list of its members
unfoldable pub add_to : Text → Text → List (Text × List Text) → List (Text × List Text)
unfolding Dict.get Dict.put contains
add_to key value d = elim (Dict.get key d) [
  | none ↦ Dict.put key (value ∷ []) d
  | some members ↦ if contains members value then d else Dict.put key (members ++ value ∷ []) d
]

module _ (F : Floats) (lower : Text → Text) where
  open F use {Float}

  -- The loop over the rows.
  unfoldable pub group_rows :
      List Text
      → Option Float
      → List (GraphRow Float)
      → List (Text × List Text)
      → List (Text × List Text)
  unfolding add_to norm contains is_empty is_active_at
  group_rows graphs at_time [] grouped = grouped
  group_rows graphs at_time (row ∷ rows) grouped =
      let r = row.relation in
      let wanted =
        (is_empty graphs || contains graphs r.graph_name) && active_in F lower at_time r in
      let added =
        add_to r.memory_id (norm lower r.object)
          (add_to r.memory_id (norm lower r.subject) grouped) in
      group_rows graphs at_time rows (if wanted then added else grouped)

  -- `none` is the ValueError of an unknown graph name.
  unfoldable pub relation_nodes_for_memory_ids :
      List Text
      → List Text
      → Option Float
      → List (GraphRow Float)
      → Option (List (Text × List Text))
  unfolding group_rows graph_names_of dedup filter_by is_empty contains sort_by ranks_before
  relation_nodes_for_memory_ids memory_ids graph_names at_time rows =
      let ids = filter_by (λ id. not (is_empty id)) (dedup memory_ids) in
      let found =
        sort_by (ranks_before F lower)
          (filter_by (λ row. contains ids row.relation.memory_id) rows) in
      if is_empty ids then some [] else elim (graph_names_of lower graph_names) [
        | none ↦ none
        | some graphs ↦ some (
            map (λ item. (item.0, filter_by (λ node. not (is_empty node)) item.1))
              (group_rows graphs at_time found (map (λ id. (id, [])) ids)))
      ]
