-- ===== src/Recall/Layers.antt =====
-- The layers of a recall: each proposes memories with a score.
use agent_memory_living_memo.Prelude.{
  ℕ, ◌*◌, Bool, true, Option, none, some, List, [], ◌∷◌, map, Text, Text_eq, codes, filter_by, max,
  if◌then◌else◌,
}
use agent_memory_living_memo.Prelude.Floats.{Floats}
use agent_memory_living_memo.Prelude.Results.{Result, raised, done, and_then}
use agent_memory_living_memo.Engram
use agent_memory_living_memo.Engram.{EngramCache, Query}
use agent_memory_living_memo.Graph.{GraphRow}
use agent_memory_living_memo.Graph.Walk.{Walk, walk_related_memory_ids}
use agent_memory_living_memo.Schema.{Dict, MemoryEnvelope}
use agent_memory_living_memo.Schema.Host.{Error, Host}
use agent_memory_living_memo.Schema.Host.Error.{value_error, type_error, key_error, file_not_found}
use agent_memory_living_memo.Store.{TemporalStore, inspect}
use agent_memory_living_memo.Store.Search.{matches, terms, list_memories}
use agent_memory_living_memo.Recall.{Proposal}
use agent_memory_living_memo.Recall.Lexical.{lexical_score}

-- The arguments of `recall`; an absent scope and absent tags are empty.
pub record RecallQuery (N : Type 0) : Type 0 where
  pub query : Text
  pub scope : Dict N
  pub tags : List Text
  pub top_k : ℕ
  pub use_engram : Bool
  pub at_time : Option N
  pub graph_hops : ℕ

-- `RecallPipeline`
pub record RecallPipeline (N : Type 0) : Type 0 where
  pub store : TemporalStore N
  pub graph_store : Option (List (GraphRow N))
  pub engram_cache : Option (EngramCache N)
  pub critical_threshold : N

-- the value of a call that raises a ValueError for none
abbrev pub or_value_error {ℓ} : {A : Type ℓ} → Option A → Result Error A
or_value_error none = raised value_error
or_value_error (some a) = done a

module _ (F : Floats) (h : Host F.Float) where
  open F use {Float, lt, add, mul, of_ℕ, hundredths}

  -- `0.70 + memory.importance * 0.25` is `boosted 70 25 memory`
  abbrev pub boosted : ℕ → ℕ → MemoryEnvelope Float → Float
  boosted base share m = add (hundredths base) (mul m.importance (hundredths share))

  abbrev pub proposed :
      Text → (MemoryEnvelope Float → Float) → MemoryEnvelope Float → Proposal Float
  proposed layer score m = record { memory = m; layer = layer; score = score m }

  -- a proposal in front of later ones, if the memory is asked for
  abbrev pub guarded : Bool → Proposal Float → List (Proposal Float) → List (Proposal Float)
  guarded wanted p ps = if wanted then p ∷ ps else ps

  module _ (q : RecallQuery Float) (now : Float) (s : TemporalStore Float) where
    unfoldable pub critical_layer : Float → Result Error (List (Proposal Float))
    unfolding list_memories
    critical_layer threshold =
        and_then (list_memories F h now q.scope q.tags (some threshold) (some (max q.top_k 10)) s)
          λ memories. done (map (proposed (codes "critical") (boosted 70 25)) memories)

    module _ (blob_threshold : ℕ) where
      -- The loop over the ids that the cache gives; an unknown id leaves the cache.
      unfoldable pub engram_loop :
          List Text → EngramCache Float → EngramCache Float × Result Error (List (Proposal Float))
      unfolding inspect Engram.invalidate_memory matches
      engram_loop [] c = (c, done [])
      engram_loop (id ∷ ids) c = elim (inspect F h blob_threshold now id true s) [
        | raised e ↦ elim e [
          | key_error ↦ engram_loop ids (Engram.invalidate_memory id c).0
          | value_error ↦ (c, raised value_error)
          | type_error ↦ (c, raised type_error)
          | file_not_found ↦ (c, raised file_not_found)
        ]
        | done m ↦
            let (c', later) = engram_loop ids c in
            (
              c',
              and_then later λ ps. done (
                  guarded (matches F h q.scope q.tags m)
                    (proposed (codes "engram") (boosted 60 25) m) ps),
            )
      ]

      -- The loop over the ids that the graph gives.
      unfoldable pub graph_loop : List Text → Result Error (List (Proposal Float))
      unfolding inspect matches
      graph_loop [] = done []
      graph_loop (id ∷ ids) =
          let later = graph_loop ids in
          elim (inspect F h blob_threshold now id true s) [
            | raised e ↦ elim e [
              | key_error ↦ later
              | value_error ↦ raised value_error
              | type_error ↦ raised type_error
              | file_not_found ↦ raised file_not_found
            ]
            | done m ↦ and_then later λ ps. done (
                guarded (matches F h q.scope q.tags m) (proposed (codes "graph") (boosted 72 28) m)
                  ps)
          ]

      -- `host` is the engram cache's.
      unfoldable pub engram_layer :
          Engram.Host Float
          → Option (EngramCache Float)
          → Option (EngramCache Float) × Result Error (List (Proposal Float))
      unfolding Engram.lookup engram_loop
      engram_layer host none = (none, done [])
      engram_layer host (some c) =
          let asked : Query Float = record { query = q.query; scope = q.scope; tags = q.tags } in
          let (c', ids) = Engram.lookup host now asked (some q.top_k) c in
          let (after, ps) = engram_loop ids c' in
          if q.use_engram then (some after, ps) else (some c, done [])

      -- `scan` is the order in which the database finds the rows of the graph.
      unfoldable pub graph_layer :
          (List (GraphRow Float) → List (GraphRow Float))
          → Option (List (GraphRow Float))
          → Result Error (List (Proposal Float))
      unfolding terms walk_related_memory_ids graph_loop
      graph_layer scan none = done []
      graph_layer scan (some rows) =
          let walk : Walk Float = record {
            limit = max (q.top_k * 4) 10;
            max_hops = q.graph_hops;
            at_time = q.at_time;
            graph_names = [];
          } in
          and_then
            (or_value_error (walk_related_memory_ids F h.lower scan (terms h q.query) walk rows))
            graph_loop

    unfoldable pub fts_layer : (Float → Float) → List (MemoryEnvelope Float) → List (Proposal Float)
    unfolding lexical_score
    fts_layer sqrt memories =
        map (proposed (codes "fts") (λ m. add (lexical_score F h sqrt q.query m) (hundredths 35)))
          memories

    -- the proposals of the scores above zero
    unfoldable pub lexical_layer : (Float → Float) → Result Error (List (Proposal Float))
    unfolding list_memories lexical_score filter_by
    lexical_layer sqrt =
        and_then (list_memories F h now q.scope q.tags none (some 100) s) λ memories. done (
          filter_by (λ p. lt (of_ℕ 0) p.score)
            (map (proposed (codes "lexical") (lexical_score F h sqrt q.query)) memories))
