-- ===== src/Recall/Seeds.antt =====
-- The layer of the memories whose addresses are near those of the best memories of the text search.
-- It keeps the names that the graph has for a memory, to ask for them once.
use agent_memory_living_memo.Prelude.{
  ◌*◌, Bool, false, not, Option, none, some, List, [], ◌∷◌, ◌++◌, map, Text, Text_eq, codes, ◌==◌,
  contains, any_of, dedup, filter_by, is_empty, take, max, min, if◌then◌else◌,
}
use agent_memory_living_memo.Prelude.Dict
use agent_memory_living_memo.Prelude.Floats.{Floats}
use agent_memory_living_memo.Prelude.Int.{pos}
use agent_memory_living_memo.Prelude.Results.{Result, raised, done, and_then}
use agent_memory_living_memo.Graph.{GraphRow}
use agent_memory_living_memo.Graph.Nodes.{relation_nodes_for_memory_ids}
use agent_memory_living_memo.Mobius.{MobiusAddress, MobiusIndex}
use agent_memory_living_memo.Schema.{MemoryEnvelope}
use agent_memory_living_memo.Schema.Host.{Error, Host}
use agent_memory_living_memo.Schema.Modality.{or_value}
use agent_memory_living_memo.Store.{TemporalStore, address_of_memory}
use agent_memory_living_memo.Store.Search.{Sqlite, by_mobius_neighbors}
use agent_memory_living_memo.Recall.{Proposal}
use agent_memory_living_memo.Recall.Layers.{RecallQuery, or_value_error, proposed, boosted, guarded}

-- `graph_node_cache`
abbrev pub NodeCache : Type 0
NodeCache = List (Text × List Text)

-- `cache.update(found)`
unfoldable pub update_nodes : NodeCache → NodeCache → NodeCache
unfolding Dict.put
update_nodes [] cache = cache
update_nodes ((id, nodes) ∷ found) cache = update_nodes found (Dict.put id nodes cache)

module _ (F : Floats) (h : Host F.Float) where
  open F use {Float, lt, add, mul, of_ℕ, hundredths}

  -- The layer of the memories near the seeds; `rows` is the graph, if there is one.
  module _ (q : RecallQuery Float) (now : Float) (s : TemporalStore Float)
      (rows : Option (List (GraphRow Float))) where
    -- `_graph_nodes_for_many`
    unfoldable pub graph_nodes_for_many : List Text → Result Error NodeCache
    unfolding relation_nodes_for_memory_ids is_empty
    graph_nodes_for_many ids = elim rows [
      | none ↦ done []
      | some found ↦
          if is_empty ids
          then done []
          else or_value_error (relation_nodes_for_memory_ids F h.lower ids [] q.at_time found)
    ]

    -- `_graph_nodes`
    unfoldable pub graph_nodes : Text → NodeCache → Result Error (NodeCache × List Text)
    unfolding relation_nodes_for_memory_ids Dict.get Dict.put
    graph_nodes id cache = elim rows [
      | none ↦ done (cache, [])
      | some found ↦ elim (Dict.get id cache) [
        | some nodes ↦ done (cache, nodes)
        | none ↦
            and_then
              (or_value_error
                (relation_nodes_for_memory_ids F h.lower (id ∷ []) [] q.at_time found))
              λ answer.
                let nodes : List Text = or_value (Dict.get id answer) [] in
                done (Dict.put id nodes cache, nodes)
      ]
    ]

    -- `_prime_graph_nodes`
    unfoldable pub prime_graph_nodes : List Text → NodeCache → Result Error NodeCache
    unfolding relation_nodes_for_memory_ids dedup filter_by contains is_empty update_nodes
    prime_graph_nodes ids cache = elim rows [
      | none ↦ done cache
      | some found ↦
          let missing : List Text =
            filter_by (λ id. not (contains (Dict.keys cache) id)) (dedup ids) in
          if is_empty missing
          then done cache
          else and_then
              (or_value_error (relation_nodes_for_memory_ids F h.lower missing [] q.at_time found))
              (λ answer. done (update_nodes answer cache))
    ]

    -- `_mobius_graph_validates`
    unfoldable pub mobius_graph_validates :
        List Text → Text → NodeCache → Result Error (NodeCache × Bool)
    unfolding graph_nodes any_of contains is_empty
    mobius_graph_validates seed_nodes id cache = elim rows [
      | none ↦ done (cache, false)
      | some _ ↦
          if is_empty seed_nodes
          then done (cache, false)
          else and_then (graph_nodes id cache)
              (λ answer. done (answer.0, any_of (contains answer.1) seed_nodes))
    ]

    -- The loop over the neighbors of a seed.
    unfoldable pub neighbor_loop :
        Text
        → List Text
        → List (MemoryEnvelope Float)
        → NodeCache
        → Result Error (NodeCache × List (Proposal Float))
    unfolding mobius_graph_validates
    neighbor_loop seed_id seed_nodes [] cache = done (cache, [])
    neighbor_loop seed_id seed_nodes (m ∷ ms) cache =
        let near = proposed F h (codes "mobius") (boosted F h 45 20) m in
        let valid = proposed F h (codes "mobius_graph") (boosted F h 68 22) m in
        let answered : Result Error (NodeCache × Bool) =
          if m.id == seed_id
          then done (cache, false)
          else mobius_graph_validates seed_nodes m.id cache in
        and_then answered λ answer.
          and_then (neighbor_loop seed_id seed_nodes ms answer.0)
            λ later. done (later.0, near ∷ guarded F h answer.1 valid later.1)

    module _ (sql : Sqlite) (grid : MobiusIndex) where
      -- what the loop does for a seed with an address
      unfoldable pub seed_step :
          MemoryEnvelope Float
          → MobiusAddress
          → NodeCache
          → Result Error (NodeCache × List (Proposal Float))
      unfolding graph_nodes by_mobius_neighbors prime_graph_nodes is_empty neighbor_loop
      seed_step seed address cache = and_then (graph_nodes seed.id cache) λ known.
          and_then
            (by_mobius_neighbors F h sql now grid address (pos 1) q.scope q.tags
              (max (q.top_k * 2) 10) s)
            λ near.
              and_then
                (if is_empty known.1
                  then done known.0
                  else prime_graph_nodes (map (λ m. m.id) near) known.0)
                λ primed. neighbor_loop seed.id known.1 near primed

      -- The loop over the seeds; a seed without an address is left out.
      unfoldable pub seed_loop :
          List (MemoryEnvelope Float) → NodeCache → Result Error (List (Proposal Float))
      unfolding address_of_memory seed_step
      seed_loop [] cache = done []
      seed_loop (seed ∷ seeds) cache = elim (address_of_memory seed.id s) [
        | raised e ↦ seed_loop seeds cache
        | done address ↦
            and_then (seed_step seed address cache)
              λ near. and_then (seed_loop seeds near.0) λ later. done (near.1 ++ later)
      ]

      unfoldable pub mobius_layer :
          List (MemoryEnvelope Float) → Result Error (List (Proposal Float))
      unfolding graph_nodes_for_many seed_loop take
      mobius_layer memories =
          let seeds = take (min (max q.top_k 1) 8) memories in
          and_then (graph_nodes_for_many (map (λ m. m.id) seeds)) (seed_loop seeds)
