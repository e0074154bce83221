-- ===== src/Recall/Near.antt =====
-- The layer of the near memories proposes only memories in the scope and with the tags.
use agent_memory_living_memo.Prelude.{
  ◌≡◌, true, false, inl, inr, Bool, Option, List, [], ◌∷◌, map, Text, Text_eq, ◌==◌, take, min, max,
  subst, is_empty, ◌*◌, if◌then◌else◌,
}
use agent_memory_living_memo.Prelude.Floats.{Floats}
use agent_memory_living_memo.Prelude.Int.{pos}
use agent_memory_living_memo.Prelude.Results.{
  Result, done, Result-cases, and_then-done, done_injective,
}
use agent_memory_living_memo.Graph.{GraphRow}
use agent_memory_living_memo.Mobius.{MobiusAddress, MobiusIndex}
use agent_memory_living_memo.Schema.{MemoryEnvelope}
use agent_memory_living_memo.Schema.Host.{Error, Host}
use agent_memory_living_memo.Store.{TemporalStore, address_of_memory}
use agent_memory_living_memo.Store.Search.{Sqlite, by_mobius_neighbors}
use agent_memory_living_memo.Store.Found.{by_mobius_neighbors-IsFound}
use agent_memory_living_memo.Recall.{Proposal}
use agent_memory_living_memo.Recall.Layers.{RecallQuery, guarded}
use agent_memory_living_memo.Recall.Matched.{Fits, AllMatch, append-Fits}
use agent_memory_living_memo.Recall.Seeds.{
  NodeCache, graph_nodes, prime_graph_nodes, mobius_graph_validates, neighbor_loop, seed_step,
  seed_loop, graph_nodes_for_many, mobius_layer,
}

module _ (F : Floats) (h : Host F.Float) (q : RecallQuery F.Float) (now : F.Float)
    (s : TemporalStore F.Float) (rows : Option (List (GraphRow F.Float))) where
  open F use {Float}

  guarded_of_Fits :
      (b : Bool) (p : Proposal Float) (ps : List (Proposal Float))
      → Fits F h q (p ∷ [])
      → Fits F h q ps
      → Fits F h q (guarded F h b p ps)
  guarded_of_Fits true p ps k l = (k.0, l)
  guarded_of_Fits false p ps k l = l

  neighbor_loop-Fits :
      (seed_id : Text) (seed_nodes : List Text) (ms : List (MemoryEnvelope Float))
      (cache : NodeCache) {found : NodeCache × List (Proposal Float)}
      → AllMatch F h q ms
      → neighbor_loop F h q now s rows seed_id seed_nodes ms cache ≡ done found
      → Fits F h q found.1
  unfolding neighbor_loop
  neighbor_loop-Fits seed_id seed_nodes [] cache {found} k e =
      subst (λ found. Fits F h q found.1) (done_injective e) tt
  neighbor_loop-Fits seed_id seed_nodes (m ∷ ms) cache {found} k e =
      let answered : Result Error (NodeCache × Bool) =
        if m.id == seed_id
        then done (cache, false)
        else mobius_graph_validates F h q now s rows seed_nodes m.id cache in
      let (answer, asked, rest) = and_then-done answered _ e in
      let (later, walked, made) =
        and_then-done (neighbor_loop F h q now s rows seed_id seed_nodes ms answer.0) _ rest in
      subst (λ found. Fits F h q found.1) (done_injective made)
        (
          k.0,
          guarded_of_Fits answer.1 _ later.1 (k.0, tt)
              (neighbor_loop-Fits seed_id seed_nodes ms answer.0 k.1 walked),
        )

  module _ (sql : Sqlite) (grid : MobiusIndex) where
    seed_step-Fits :
        (seed : MemoryEnvelope Float) (address : MobiusAddress) (cache : NodeCache)
        {found : NodeCache × List (Proposal Float)}
        → seed_step F h q now s rows sql grid seed address cache ≡ done found
        → Fits F h q found.1
    unfolding seed_step
    seed_step-Fits seed address cache {found} e =
        let (known, a, e1) = and_then-done (graph_nodes F h q now s rows seed.id cache) _ e in
        let (near, b, e2) =
          and_then-done
            (by_mobius_neighbors F h sql now grid address (pos 1) q.scope q.tags
              (max (q.top_k * 2) 10) s)
            _ e1 in
        let prime : Result Error NodeCache =
          if is_empty known.1
          then done known.0
          else prime_graph_nodes F h q now s rows (map (λ m. m.id) near) known.0 in
        let (primed, c, e3) = and_then-done prime _ e2 in
        neighbor_loop-Fits seed.id known.1 near primed
          (by_mobius_neighbors-IsFound F h sql now grid address (pos 1) q.scope q.tags
            (max (q.top_k * 2) 10) s b).0
          e3

    seed_loop-Fits :
        (seeds : List (MemoryEnvelope Float)) (cache : NodeCache) {ps : List (Proposal Float)}
        → seed_loop F h q now s rows sql grid seeds cache ≡ done ps
        → Fits F h q ps
    unfolding seed_loop
    seed_loop-Fits [] cache {ps} e = subst (Fits F h q) (done_injective e) tt
    seed_loop-Fits (seed ∷ seeds) cache {ps} e = elim (Result-cases (address_of_memory seed.id s)) [
      | inl (r, unknown) ↦ seed_loop-Fits seeds cache (rw (unknown, seed_loop) at e)
      | inr (address, known) ↦
          let (near, a, e1) =
            and_then-done (seed_step F h q now s rows sql grid seed address cache) _
              (rw (known, seed_loop) at e) in
          let (later, b, made) =
            and_then-done (seed_loop F h q now s rows sql grid seeds near.0) _ e1 in
          subst (Fits F h q) (done_injective made) (
            append-Fits F h q near.1 later (seed_step-Fits seed address cache a)
              (seed_loop-Fits seeds near.0 b))
    ]

    pub mobius_layer-Fits :
        (memories : List (MemoryEnvelope Float)) {ps : List (Proposal Float)}
        → mobius_layer F h q now s rows sql grid memories ≡ done ps
        → Fits F h q ps
    unfolding mobius_layer
    mobius_layer-Fits memories {ps} e =
        let seeds = take (min (max q.top_k 1) 8) memories in
        let (cache, asked, found) =
          and_then-done (graph_nodes_for_many F h q now s rows (map (λ m. m.id) seeds)) _ e in
        seed_loop-Fits seeds cache found
