-- ===== src/Recall/Found.antt =====
-- What `recall` promises of its results.
use agent_memory_living_memo.Prelude.{
  ◌≡◌, ◌≤◌, true, inl, inr, Bool-cases, List, [], ◌++◌, All, length, max, ltb, ◌*◌, subst,
}
use agent_memory_living_memo.Prelude.Floats.{Floats, IsOrder}
use agent_memory_living_memo.Prelude.Results.{
  Result, done, Result-cases, and_then-done, done_injective, raised_not_done,
}
use agent_memory_living_memo.Schema.Host.{Error, Host}
use agent_memory_living_memo.Store.Search.{matches, terms, search_text}
use agent_memory_living_memo.Store.Found.{search_text-IsFound}
use agent_memory_living_memo.Recall.{RecallResult, Proposal, Candidates, merge_all}
use agent_memory_living_memo.Recall.Layers.{
  RecallQuery, RecallPipeline, critical_layer, fts_layer, graph_layer, lexical_layer,
}
use agent_memory_living_memo.Recall.Seeds.{mobius_layer}
use agent_memory_living_memo.Recall.Pipeline.{Setup, searched, completed, results_of, recall}
use agent_memory_living_memo.Recall.Matched.{
  Fits, append-Fits, critical_layer-Fits, engram_layer-Fits, fts_layer-Fits, graph_layer-Fits,
  lexical_layer-Fits,
}
use agent_memory_living_memo.Recall.Near.{mobius_layer-Fits}
use agent_memory_living_memo.Recall.Merged.{
  AreCandidates, merge_all-AreCandidates, merge_all-memory,
}
use agent_memory_living_memo.Recall.Ranked.{IsResult, ranked-AreResults, ranked-memory}

module _ (F : Floats) (h : Host F.Float) (u : Setup F) (now : F.Float) (q : RecallQuery F.Float)
    (p : RecallPipeline F.Float) where
  open F use {Float}

  searched-Fits : {ps : List (Proposal Float)} → searched F h u now q p ≡ done ps → Fits F h q ps
  unfolding searched
  searched-Fits {ps} e =
      let (memories, a, e1) =
        and_then-done
          (search_text F h u.sqlite now q.query q.scope q.tags (max (q.top_k * 4) 10) p.store) _
          e in
      let (near, b, e2) =
        and_then-done (mobius_layer F h q now p.store p.graph_store u.sqlite u.grid memories) _
          e1 in
      let (walked, c, made) =
        and_then-done (graph_layer F h q now p.store u.blob_threshold u.scan p.graph_store) _ e2 in
      let k =
        search_text-IsFound F h u.sqlite now q.query q.scope q.tags (max (q.top_k * 4) 10) p.store
          a in
      subst (Fits F h q) (done_injective made) (
        append-Fits F h q (fts_layer F h q now p.store u.sqrt memories ++ near) walked
          (append-Fits F h q (fts_layer F h q now p.store u.sqrt memories) near
            (fts_layer-Fits F h q now p.store u.sqrt memories k.0)
            (mobius_layer-Fits F h q now p.store p.graph_store u.sqlite u.grid memories b))
          (graph_layer-Fits F h q now p.store u.blob_threshold u.scan p.graph_store c))

  -- candidates of which all memories are asked for
  record AreMatched (o : IsOrder F) (cs : Candidates Float) : Type 0 where
    candidates : AreCandidates F o cs
    matched : All (λ item. matches F h q.scope q.tags item.1.memory ≡ true) cs

  merge_all-AreMatched :
      (o : IsOrder F) (ps : List (Proposal Float)) (old : Candidates Float)
      → Fits F h q ps
      → AreMatched o old
      → AreMatched o (merge_all F ps old)
  merge_all-AreMatched o ps old k m = record {
    candidates = merge_all-AreCandidates F o ps old m.candidates;
    matched = merge_all-memory F (λ m. matches F h q.scope q.tags m ≡ true) ps old k m.matched;
  }

  completed-AreMatched :
      (o : IsOrder F) (ps : List (Proposal Float)) {candidates : Candidates Float}
      → Fits F h q ps
      → completed F h u now q p ps ≡ done candidates
      → AreMatched o candidates
  unfolding completed
  completed-AreMatched o ps {candidates} k e =
      let first : AreMatched o (merge_all F ps []) =
        merge_all-AreMatched o ps [] k
          (record { candidates = record { each = tt; once = tt }; matched = tt }) in
      elim (Bool-cases (ltb (length (merge_all F ps [])) q.top_k)) [
        | inl few ↦
            let (more, found, made) =
              and_then-done (lexical_layer F h q now p.store u.sqrt) _ (rw (few, completed) at e) in
            subst (AreMatched o) (done_injective made) (
              merge_all-AreMatched o more (merge_all F ps [])
                (lexical_layer-Fits F h q now p.store u.sqrt found) first)
        | inr enough ↦ subst (AreMatched o) (done_injective (rw (enough, completed) at e)) first
      ]

  -- at most `top_k` results, each in bounds, to be recalled, and as asked for
  pub record AreFound (results : List (RecallResult Float)) : Type 0 where
    pub few : length results ≤ q.top_k
    pub each : All (IsResult F u.convert h.lower (terms h q.query) q.at_time) results
    pub matched : All (λ r. matches F h q.scope q.tags r.memory ≡ true) results

  results_of-AreFound :
      (critical : List (Proposal Float)) (engram : Result Error (List (Proposal Float)))
      {results : List (RecallResult Float)}
      → IsOrder F
      → Fits F h q critical
      → ((ps : List (Proposal Float)) → engram ≡ done ps → Fits F h q ps)
      → results_of F h u now q p critical engram ≡ done results
      → AreFound results
  unfolding results_of
  results_of-AreFound critical engram {results} o k l e =
      let (remembered, a, e1) = and_then-done engram _ e in
      let (found, b, e2) = and_then-done (searched F h u now q p) _ e1 in
      let (candidates, c, made) =
        and_then-done (completed F h u now q p (critical ++ remembered ++ found)) _ e2 in
      let fits =
        append-Fits F h q (critical ++ remembered) found
          (append-Fits F h q critical remembered k (l remembered a)) (searched-Fits b) in
      let m : AreMatched o candidates =
        completed-AreMatched o (critical ++ remembered ++ found) fits c in
      let ranking =
        ranked-AreResults F u.convert h.lower (terms h q.query) q.at_time candidates q.top_k o
          m.candidates in
      subst AreFound (done_injective made) (record {
        few = ranking.0;
        each = ranking.1;
        matched =
            ranked-memory F u.convert h.lower (terms h q.query) q.at_time
              (λ m. matches F h q.scope q.tags m ≡ true) candidates q.top_k m.matched;
      })

  -- A recall that raises no error returns at most `top_k` results, whatever the text index finds and
  -- the cache holds. The memory of each is in the scope and has all the tags that are asked for, and
  -- it may be recalled by its lifecycle. The scores and signals are between 0 and 1, the confidence
  -- is at most 1, and no reason is named twice.
  pub recall-AreFound :
      {results : List (RecallResult Float)}
      → IsOrder F
      → (recall F h u now q p).1 ≡ done results
      → AreFound results
  unfolding recall
  recall-AreFound {results} o e =
      elim (Result-cases (critical_layer F h q now p.store p.critical_threshold)) [
        | inl (r, broken) ↦ absurd (raised_not_done (rw (broken, recall) at e))
        | inr (critical, first) ↦
            results_of-AreFound critical _ o
              (critical_layer-Fits F h q now p.store p.critical_threshold first)
              (λ ps.
                engram_layer-Fits F h q now p.store u.blob_threshold u.engram_host p.engram_cache)
              (rw (first, recall) at e)
      ]
