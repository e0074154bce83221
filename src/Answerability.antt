-- ===== src/Answerability.antt =====
-- answerability.py: whether the memories that were found support an answer.
pub mod Support
mod Tests
use agent_memory_living_memo.Prelude.{
  ℕ, Bool, true, false, not, ◌&&◌, ◌||◌, Option, none, some, List, [], ◌∷◌, ◌++◌, map, Text,
  Text_eq, codes, ◌==◌, contains, filter_by, is_empty, length, if◌then◌else◌,
}
use agent_memory_living_memo.Prelude.Dict
use agent_memory_living_memo.Prelude.Floats.{Floats, le, fmax, fmin, clamp}
use agent_memory_living_memo.Prelude.Strings.{strip}
use agent_memory_living_memo.Scoring.{MemoryFeatureScore}

pub record AnswerabilityAssessment (N : Type 0) : Type 0 where
  pub score : N
  pub status : Text
  pub reasons : List Text

-- `total` is `sum` on floats.
module _ (F : Floats) (total : List F.Float → F.Float) where
  open F use {Float, add, sub, mul, div, of_ℕ, hundredths}

  -- `max` over the first value and the others
  unfoldable pub max_of : Float → List Float → Float
  unfolding fmax
  max_of x [] = x
  max_of x (y ∷ ys) = max_of (fmax F x y) ys

  -- `d.get(key, 0.0)`
  unfoldable pub value_at : Text → List (Text × Float) → Float
  unfolding Dict.get
  value_at key d = elim (Dict.get key d) [ none ↦ of_ℕ 0 | some x ↦ x ]

  unfoldable pub threshold_for_phase : Text → Float
  threshold_for_phase phase =
      if phase == codes "final_verification"
      then hundredths 60
      else if phase == codes "tool_preflight"
      then hundredths 40
      else if phase == codes "planning"
      then hundredths 35
      else hundredths 25

  -- the greatest value of a key
  unfoldable pub greatest :
      (MemoryFeatureScore Float → Float)
      → MemoryFeatureScore Float
      → List (MemoryFeatureScore Float)
      → Float
  unfolding max_of
  greatest key s ss = max_of (key s) (map key ss)

  abbrev pub feature : Text → MemoryFeatureScore Float → List (MemoryFeatureScore Float) → Float
  feature name = greatest (λ s. value_at name s.features)

  abbrev pub risk_of : MemoryFeatureScore Float → List (MemoryFeatureScore Float) → Float
  risk_of = greatest (λ s. value_at (codes "risk") s.penalties)

  unfoldable pub stale_of : List (MemoryFeatureScore Float) → Float
  unfolding fmin value_at
  stale_of ss =
      fmin F (of_ℕ 1)
        (div (total (map (λ s. value_at (codes "stale") s.penalties) ss)) (of_ℕ (length ss)))

  unfoldable pub support_score : MemoryFeatureScore Float → List (MemoryFeatureScore Float) → Float
  unfolding clamp greatest value_at stale_of
  support_score s ss =
      let a = mul (hundredths 34) (greatest (λ s. s.utility) s ss) in
      let b = add a (mul (hundredths 22) (feature (codes "lexical") s ss)) in
      let c = add b (mul (hundredths 14) (feature (codes "graph") s ss)) in
      let d = add c (mul (hundredths 12) (feature (codes "confidence") s ss)) in
      let e = add d (mul (hundredths 10) (feature (codes "time") s ss)) in
      let f = sub e (mul (hundredths 35) (risk_of s ss)) in
      clamp F (sub f (mul (hundredths 20) (stale_of (s ∷ ss))))

  abbrev pub too_risky : MemoryFeatureScore Float → List (MemoryFeatureScore Float) → Bool
  too_risky s ss = le F (hundredths 50) (risk_of s ss)

  abbrev pub uncovered : MemoryFeatureScore Float → List (MemoryFeatureScore Float) → Bool
  uncovered s ss =
      le F (feature (codes "lexical") s ss) (of_ℕ 0) && le F (feature (codes "graph") s ss) (of_ℕ 0)

  abbrev when : Bool → Text → List Text
  when b reason = if b then reason ∷ [] else []

  -- Of the terms only whether any is left is seen.
  unfoldable pub assess_answerability :
      List Text → List (MemoryFeatureScore Float) → Text → AnswerabilityAssessment Float
  unfolding support_score threshold_for_phase stale_of greatest value_at filter_by strip is_empty
  assess_answerability query_terms [] phase = record {
    score = of_ℕ 0;
    status = codes "unsupported";
    reasons = codes "no_evidence" ∷ [];
  }
  assess_answerability query_terms (s ∷ ss) phase =
      let terms = filter_by (λ t. not (is_empty (strip t))) query_terms in
      let score = support_score s ss in
      let reasons =
        when (too_risky s ss) (codes "risk_too_high")
        ++ (when (le F (hundredths 50) (stale_of (s ∷ ss))) (codes "stale_or_superseded")
            ++ when (uncovered s ss) (codes "low_query_coverage")) in
      if is_empty terms
      then record {
        score = of_ℕ 0;
        status = codes "unsupported";
        reasons = codes "no_evidence" ∷ [];
      }
      else if le F (threshold_for_phase phase) score && not (too_risky s ss || uncovered s ss)
      then record {
        score = score;
        status = codes "supported";
        reasons = reasons ++ codes "sufficient_support" ∷ [];
      }
      else record {
        score = score;
        status = codes "unsupported";
        reasons = reasons ++ codes "insufficient_support" ∷ [];
      }
