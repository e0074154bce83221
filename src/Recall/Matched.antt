-- ===== src/Recall/Matched.antt =====
-- Every layer proposes only memories in the scope and with the tags that are asked for.
use agent_memory_living_memo.Prelude.{
  ℕ, ◌≡◌, true, inl, inr, Bool, Bool-cases, Option, none, some, List, [], ◌∷◌, ◌++◌, All, map, Text,
  Text_eq, max, subst, filter_by,
}
use agent_memory_living_memo.Prelude.Floats.{Floats}
use agent_memory_living_memo.Prelude.Results.{
  done, Result-cases, and_then-done, done_injective, raised_not_done,
}
use agent_memory_living_memo.Engram
use agent_memory_living_memo.Engram.{EngramCache, Query}
use agent_memory_living_memo.Graph.{GraphRow}
use agent_memory_living_memo.Schema.{MemoryEnvelope}
use agent_memory_living_memo.Schema.Host.{Host}
use agent_memory_living_memo.Schema.Host.Error.{value_error, type_error, key_error, file_not_found}
use agent_memory_living_memo.Store.{TemporalStore, inspect}
use agent_memory_living_memo.Store.Search.{matches, list_memories}
use agent_memory_living_memo.Store.Found.{list_memories-IsFound}
use agent_memory_living_memo.Recall.{Proposal}
use agent_memory_living_memo.Recall.Layers.{
  RecallQuery, proposed, guarded, critical_layer, engram_loop, engram_layer, graph_loop,
  graph_layer, fts_layer, lexical_layer,
}

module _ (F : Floats) (h : Host F.Float) (q : RecallQuery F.Float) where
  open F use {Float, lt, of_ℕ}

  abbrev pub Fits : List (Proposal Float) → Type 0
  Fits = All (λ p. matches F h q.scope q.tags p.memory ≡ true)

  abbrev pub AllMatch : List (MemoryEnvelope Float) → Type 0
  AllMatch = All (λ m. matches F h q.scope q.tags m ≡ true)

  pub proposed-Fits :
      (layer : Text) (score : MemoryEnvelope Float → Float) (ms : List (MemoryEnvelope Float))
      → AllMatch ms
      → Fits (map (proposed F h layer score) ms)
  proposed-Fits layer score [] k = tt
  proposed-Fits layer score (m ∷ ms) k = (k.0, proposed-Fits layer score ms k.1)

  pub append-Fits : (ps more : List (Proposal Float)) → Fits ps → Fits more → Fits (ps ++ more)
  append-Fits [] more k l = l
  append-Fits (p ∷ ps) more k l = (k.0, append-Fits ps more k.1 l)

  filter-Fits :
      (keep : Proposal Float → Bool) (ps : List (Proposal Float))
      → Fits ps
      → Fits (filter_by keep ps)
  unfolding filter_by
  filter-Fits keep [] k = tt
  filter-Fits keep (p ∷ ps) k = elim (Bool-cases (keep p)) [
    | inl e ↦ rw (e, filter_by) (k.0, filter-Fits keep ps k.1)
    | inr e ↦ rw (e, filter_by) (filter-Fits keep ps k.1)
  ]

  guarded-Fits :
      (p : Proposal Float) (ps : List (Proposal Float))
      → Fits ps
      → Fits (guarded F h (matches F h q.scope q.tags p.memory) p ps)
  guarded-Fits p ps k = elim (Bool-cases (matches F h q.scope q.tags p.memory)) [
    | inl e ↦ rw e (e, k)
    | inr e ↦ rw e k
  ]

  module _ (now : Float) (s : TemporalStore Float) where
    pub critical_layer-Fits :
        (threshold : Float) {ps : List (Proposal Float)}
        → critical_layer F h q now s threshold ≡ done ps
        → Fits ps
    unfolding critical_layer
    critical_layer-Fits threshold {ps} e =
        let (memories, found, made) =
          and_then-done
            (list_memories F h now q.scope q.tags (some threshold) (some (max q.top_k 10)) s) _ e in
        subst Fits (done_injective made) (
          proposed-Fits _ _ memories
            (list_memories-IsFound F h now q.scope q.tags (some threshold) (max q.top_k 10) s
              found).0)

    pub lexical_layer-Fits :
        (sqrt : Float → Float) {ps : List (Proposal Float)}
        → lexical_layer F h q now s sqrt ≡ done ps
        → Fits ps
    unfolding lexical_layer
    lexical_layer-Fits sqrt {ps} e =
        let (memories, found, made) =
          and_then-done (list_memories F h now q.scope q.tags none (some 100) s) _ e in
        subst Fits (done_injective made) (
          filter-Fits _ _ (
            proposed-Fits _ _ memories
              (list_memories-IsFound F h now q.scope q.tags none 100 s found).0))

    pub fts_layer-Fits :
        (sqrt : Float → Float) (memories : List (MemoryEnvelope Float))
        → AllMatch memories
        → Fits (fts_layer F h q now s sqrt memories)
    unfolding fts_layer
    fts_layer-Fits sqrt memories k = proposed-Fits _ _ memories k

    module _ (limit : ℕ) where
      engram_loop-Fits :
          (ids : List Text) (c : EngramCache Float) {ps : List (Proposal Float)}
          → (engram_loop F h q now s limit ids c).1 ≡ done ps
          → Fits ps
      unfolding engram_loop
      engram_loop-Fits [] c {ps} e = subst Fits (done_injective e) tt
      engram_loop-Fits (id ∷ ids) c {ps} e = elim (Result-cases (inspect F h limit now id true s)) [
        | inl (key_error, r) ↦
            engram_loop-Fits ids (Engram.invalidate_memory id c).0 (rw (r, engram_loop) at e)
        | inl (value_error, r) ↦ absurd (raised_not_done (rw (r, engram_loop) at e))
        | inl (type_error, r) ↦ absurd (raised_not_done (rw (r, engram_loop) at e))
        | inl (file_not_found, r) ↦ absurd (raised_not_done (rw (r, engram_loop) at e))
        | inr (m, r) ↦
            let (later, found, made) =
              and_then-done (engram_loop F h q now s limit ids c).1 _ (rw (r, engram_loop) at e) in
            subst Fits (done_injective made) (guarded-Fits _ later (engram_loop-Fits ids c found))
      ]

      graph_loop-Fits :
          (ids : List Text) {ps : List (Proposal Float)}
          → graph_loop F h q now s limit ids ≡ done ps
          → Fits ps
      unfolding graph_loop
      graph_loop-Fits [] {ps} e = subst Fits (done_injective e) tt
      graph_loop-Fits (id ∷ ids) {ps} e = elim (Result-cases (inspect F h limit now id true s)) [
        | inl (key_error, r) ↦ graph_loop-Fits ids (rw (r, graph_loop) at e)
        | inl (value_error, r) ↦ absurd (raised_not_done (rw (r, graph_loop) at e))
        | inl (type_error, r) ↦ absurd (raised_not_done (rw (r, graph_loop) at e))
        | inl (file_not_found, r) ↦ absurd (raised_not_done (rw (r, graph_loop) at e))
        | inr (m, r) ↦
            let (later, found, made) =
              and_then-done (graph_loop F h q now s limit ids) _ (rw (r, graph_loop) at e) in
            subst Fits (done_injective made) (guarded-Fits _ later (graph_loop-Fits ids found))
      ]

      pub engram_layer-Fits :
          (host : Engram.Host Float) (cache : Option (EngramCache Float))
          {ps : List (Proposal Float)}
          → (engram_layer F h q now s limit host cache).1 ≡ done ps
          → Fits ps
      unfolding engram_layer
      engram_layer-Fits host none {ps} e = subst Fits (done_injective e) tt
      engram_layer-Fits host (some c) {ps} e = elim (Bool-cases q.use_engram) [
        | inl used ↦ engram_loop-Fits _ _ (rw (used, engram_layer) at e)
        | inr unused ↦ subst Fits (done_injective (rw (unused, engram_layer) at e)) tt
      ]

      pub graph_layer-Fits :
          (scan : List (GraphRow Float) → List (GraphRow Float))
          (graph : Option (List (GraphRow Float))) {ps : List (Proposal Float)}
          → graph_layer F h q now s limit scan graph ≡ done ps
          → Fits ps
      unfolding graph_layer
      graph_layer-Fits scan none {ps} e = subst Fits (done_injective e) tt
      graph_layer-Fits scan (some rows) {ps} e =
          let (ids, asked, found) = and_then-done _ (graph_loop F h q now s limit) e in
          graph_loop-Fits ids found
