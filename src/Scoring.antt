-- ===== src/Scoring.antt =====
-- scoring.py: the features of a recalled memory, and its utility for a query and a phase of work.
pub mod Utility
mod Tests
use agent_memory_living_memo.Prelude.{
  ℕ, Bool, true, false, not, ◌&&◌, ◌||◌, Option, none, some, List, [], ◌∷◌, ◌++◌, map, Text,
  Text_eq, codes, ◌==◌, contains, dedup, any_of, filter_by, is_empty, length, if◌then◌else◌,
}
use agent_memory_living_memo.Prelude.Dict
use agent_memory_living_memo.Prelude.Floats.{Floats, fmax, fmin, clamp}
use agent_memory_living_memo.Prelude.Strings.{strip}
use agent_memory_living_memo.Schema.{MemoryEnvelope}
use agent_memory_living_memo.Lifecycle.{
  LifecycleView, has_any, historical_query_terms, current_query_terms, effective_importance,
}

pub record MemoryFeatureScore (N : Type 0) : Type 0 where
  pub memory_id : Text
  pub utility : N
  pub features : List (Text × N)
  pub penalties : List (Text × N)
  pub reasons : List Text

-- What is read of a `RecallResult`, with the life cycle of its memory and the words of its text, its
-- tags, its entities and its type.
pub record Candidate (N : Type 0) : Type 0 where
  pub memory : MemoryEnvelope N
  pub score : N
  pub confidence : N
  pub why_retrieved : List Text
  pub layer_signals : List (Text × N)
  pub lifecycle : LifecycleView N
  pub memory_terms : List Text

-- What is read of the governance of a memory.
pub record Governance : Type 0 where
  pub safety_labels : List Text
  pub prompt_policy : Text

module _ (F : Floats) (lower : Text → Text) where
  open F use {Float, lt, add, sub, mul, div, of_ℕ, hundredths, log1p, exp_neg}

  -- Query terms are a set.
  unfoldable pub coverage : List Text → List Text → Float
  unfolding is_empty contains filter_by
  coverage query_terms memory_terms =
      if is_empty query_terms
      then of_ℕ 0
      else div (of_ℕ (length (filter_by (contains memory_terms) query_terms)))
          (of_ℕ (length query_terms))

  unfoldable pub graph_signal : Candidate Float → Float
  unfolding contains Dict.get fmin
  graph_signal r =
      if contains r.why_retrieved (codes "mobius_graph")
      then of_ℕ 1
      else if contains r.why_retrieved (codes "graph")
      then hundredths 85
      else elim (Dict.get (codes "graph") r.layer_signals) [
        | none ↦ of_ℕ 0
        | some x ↦ if lt x (of_ℕ 0) || lt (of_ℕ 0) x then fmin F (of_ℕ 1) x else of_ℕ 0
      ]

  unfoldable pub activation : ℕ → Option Float → Option Float → Float
  unfolding fmin fmax clamp
  activation usage_count none at_time =
      fmin F (hundredths 65) (div (log1p (of_ℕ usage_count)) (of_ℕ 5))
  activation usage_count (some last) none =
      fmin F (hundredths 65) (div (log1p (of_ℕ usage_count)) (of_ℕ 5))
  activation usage_count (some last) (some t) =
      let usage = fmin F (hundredths 65) (div (log1p (of_ℕ usage_count)) (of_ℕ 5)) in
      let age = fmax F (of_ℕ 0) (sub t last) in
      clamp F (add usage (mul (hundredths 35) (exp_neg (div age (of_ℕ 86400)))))

  unfoldable pub phase_fit : Text → List Text → Text → Float
  unfolding contains has_any
  phase_fit memory_type tags phase =
      if phase == codes "tool_preflight"
      then if (memory_type == codes "procedural")
          || has_any tags (codes "lesson" ∷ codes "tool-use" ∷ [])
        then of_ℕ 1
        else hundredths 35
      else if phase == codes "planning"
      then if contains (codes "decision" ∷ codes "procedural" ∷ codes "artifact_section" ∷ [])
          memory_type
        then of_ℕ 1
        else hundredths 55
      else if phase == codes "final_verification"
      then if contains
          (codes "decision" ∷ codes "semantic" ∷ codes "artifact" ∷ codes "artifact_section" ∷ [])
          memory_type
        then of_ℕ 1
        else hundredths 45
      else if phase == codes "conflict_resolution"
      then of_ℕ 1
      else hundredths 70

  unfoldable pub staleness_penalty : Text → List Text → Float
  unfolding has_any
  staleness_penalty state terms =
      if has_any terms historical_query_terms
      then of_ℕ 0
      else if state == codes "superseded"
      then if has_any terms current_query_terms then hundredths 60 else hundredths 45
      else if state == codes "contradicted"
      then hundredths 50
      else if state == codes "archival"
      then hundredths 35
      else if state == codes "historical"
      then hundredths 25
      else of_ℕ 0

  unfoldable pub governance_risk : Governance → Float
  unfolding has_any fmax
  governance_risk g =
      let labels = map lower g.safety_labels in
      let a =
        if g.prompt_policy == codes "inspect_only"
        then fmax F (of_ℕ 0) (hundredths 72)
        else of_ℕ 0 in
      let b =
        if has_any labels
          (codes "credential" ∷ codes "pii" ∷ codes "prompt_attack" ∷ codes "restricted" ∷ [])
        then fmax F a (hundredths 75)
        else a in
      if has_any labels (codes "confidential" ∷ codes "sensitive" ∷ [])
      then fmax F b (hundredths 45)
      else b

  unfoldable pub utility_of :
      Float → Float → Float → Float → Float → Float → Float → Float → Float → Float → Float
  unfolding clamp
  utility_of retrieval lexical graph time importance confidence activation phase risk stale =
      let a = add (mul (hundredths 18) retrieval) (mul (hundredths 18) lexical) in
      let b = add (add a (mul (hundredths 14) graph)) (mul (hundredths 12) time) in
      let c = add (add b (mul (hundredths 12) importance)) (mul (hundredths 10) confidence) in
      let d = add (add c (mul (hundredths 8) activation)) (mul (hundredths 8) phase) in
      clamp F (sub (sub d (mul (hundredths 35) risk)) (mul (hundredths 25) stale))

  unfoldable pub score_memory_candidate :
      Candidate Float → List Text → Text → Option Float → Governance → MemoryFeatureScore Float
  unfolding utility_of coverage graph_signal activation phase_fit staleness_penalty governance_risk
      effective_importance clamp dedup filter_by strip is_empty
  score_memory_candidate r query_terms phase at_time governance =
      let terms = dedup (map lower (filter_by (λ t. not (is_empty (strip t))) query_terms)) in
      let v = r.lifecycle in
      let lexical = coverage terms r.memory_terms in
      let graph = graph_signal r in
      let time = effective_importance F lower v none terms at_time in
      let confidence = clamp F r.confidence in
      let active = activation v.usage_count v.last_used_at at_time in
      let fit = phase_fit r.memory.memory_type r.memory.tags phase in
      let retrieval = clamp F r.score in
      let stale = staleness_penalty v.state terms in
      let risk = governance_risk governance in
      record {
        memory_id = r.memory.id;
        utility =
            utility_of retrieval lexical graph time r.memory.importance confidence active fit risk
              stale;
        features =
            (codes "retrieval", retrieval)
            ∷ (codes "lexical", lexical)
            ∷ (codes "graph", graph)
            ∷ (codes "time", time)
            ∷ (codes "importance", r.memory.importance)
            ∷ (codes "confidence", confidence)
            ∷ (codes "activation", active)
            ∷ (codes "phase", fit)
            ∷ [];
        penalties = (codes "risk", risk) ∷ (codes "stale", stale) ∷ (codes "scope", of_ℕ 0) ∷ [];
        reasons =
            v.state
            ∷ ((if lt (of_ℕ 0) graph then codes "graph_supported" ∷ [] else [])
                ++ (if lt (of_ℕ 0) risk then codes "risk" ∷ [] else []));
      }
