-- ===== src/Recall/Pipeline.antt =====
-- `recall`: the layers in order, and what they leave in the cache of queries.
use agent_memory_living_memo.Prelude.{
  ℕ, ◌*◌, Option, none, some, List, [], ◌++◌, map, Text_eq, ltb, length, max, if◌then◌else◌,
}
use agent_memory_living_memo.Prelude.Floats.{Floats}
use agent_memory_living_memo.Prelude.Results.{Result, raised, done, and_then}
use agent_memory_living_memo.Engram
use agent_memory_living_memo.Engram.{EngramCache, Query}
use agent_memory_living_memo.Graph.{GraphRow}
use agent_memory_living_memo.Lifecycle.Metadata.{Convert}
use agent_memory_living_memo.Mobius.{MobiusIndex}
use agent_memory_living_memo.Schema.Host.{Error, Host}
use agent_memory_living_memo.Store.Search.{Sqlite, terms, search_text}
use agent_memory_living_memo.Recall.{RecallResult, Proposal, Candidates, merge_all, ranked}
use agent_memory_living_memo.Recall.Layers.{
  RecallQuery, RecallPipeline, critical_layer, engram_layer, fts_layer, graph_layer, lexical_layer,
}
use agent_memory_living_memo.Recall.Seeds.{mobius_layer}

-- What the pipeline takes from its surroundings: the conversions of values, `math.sqrt`, the
-- engram cache's host, SQLite, the size of a large content and the grid of addresses.
pub record Setup (F : Floats) : Type 0 where
  pub convert : Convert F.Float
  pub sqrt : F.Float → F.Float
  pub engram_host : Engram.Host F.Float
  pub sqlite : Sqlite
  pub scan : List (GraphRow F.Float) → List (GraphRow F.Float)
  pub blob_threshold : ℕ
  pub grid : MobiusIndex

module _ (F : Floats) (h : Host F.Float) (u : Setup F) (now : F.Float)
    (q : RecallQuery F.Float) where
  open F use {Float}

  module _ (p : RecallPipeline Float) where
    -- The proposals of the text search, the addresses and the graph, in order.
    unfoldable pub searched : Result Error (List (Proposal Float))
    unfolding search_text fts_layer mobius_layer graph_layer
    searched =
        and_then
          (search_text F h u.sqlite now q.query q.scope q.tags (max (q.top_k * 4) 10) p.store)
          λ memories.
            and_then (mobius_layer F h q now p.store p.graph_store u.sqlite u.grid memories) λ near.
              and_then (graph_layer F h q now p.store u.blob_threshold u.scan p.graph_store)
                λ walked. done (fts_layer F h q now p.store u.sqrt memories ++ near ++ walked)

    -- The candidates of some proposals, with those of the last layer if they are too few.
    unfoldable pub completed : List (Proposal Float) → Result Error (Candidates Float)
    unfolding merge_all lexical_layer
    completed ps =
        let candidates = merge_all F ps [] in
        if ltb (length candidates) q.top_k
        then and_then (lexical_layer F h q now p.store u.sqrt)
            (λ more. done (merge_all F more candidates))
        else done candidates

    -- The results, given the proposals of the first two layers.
    unfoldable pub results_of :
        List (Proposal Float)
        → Result Error (List (Proposal Float))
        → Result Error (List (RecallResult Float))
    unfolding searched completed terms ranked
    results_of critical engram = and_then engram λ remembered. and_then searched λ found.
        and_then (completed (critical ++ remembered ++ found)) λ candidates.
          done (ranked F u.convert h.lower (terms h q.query) q.at_time q.top_k candidates)

  -- `record_result`, if the recall uses the cache and has not raised
  unfoldable pub recorded :
      Option (EngramCache Float)
      → Result Error (List (RecallResult Float))
      → Option (EngramCache Float)
  unfolding Engram.record_result
  recorded none results = none
  recorded (some c) (raised e) = some c
  recorded (some c) (done results) =
      let asked : Query Float = record { query = q.query; scope = q.scope; tags = q.tags } in
      if q.use_engram
      then some (Engram.record_result u.engram_host now asked (map (λ r. r.memory.id) results) c).0
      else some c

  -- The pipeline after a recall, and its results.
  unfoldable pub recall :
      RecallPipeline Float → RecallPipeline Float × Result Error (List (RecallResult Float))
  unfolding critical_layer engram_layer results_of recorded
  recall p = elim (critical_layer F h q now p.store p.critical_threshold) [
    | raised e ↦ (p, raised e)
    | done critical ↦
        let (cache, engram) =
          engram_layer F h q now p.store u.blob_threshold u.engram_host p.engram_cache in
        let results = results_of p critical engram in
        (record p { engram_cache = recorded cache results }, results)
  ]
