-- ===== src/Answerability/Support.antt =====
-- What it takes for an answer to be supported.
use agent_memory_living_memo.Prelude.{
  ◌≡◌, refl, arith, true, false, not, ◌&&◌, ◌||◌, inl, inr, Bool-cases, List, ◌∷◌, Text, Text_eq,
  text_eq, codes, ◌==◌, filter_by, is_empty,
}
use agent_memory_living_memo.Prelude.Floats.{Floats, le, IsOrder, IsUnit, clamp-IsUnit}
use agent_memory_living_memo.Prelude.Strings.{strip}
use agent_memory_living_memo.Scoring.{MemoryFeatureScore}
use agent_memory_living_memo.Answerability.{
  support_score, threshold_for_phase, too_risky, uncovered, assess_answerability,
}

unsupported_differs : (codes "unsupported" == codes "supported") ≡ false
unfolding text_eq
unsupported_differs = refl

module _ (F : Floats) (total : List F.Float → F.Float) where
  open F use {Float, of_ℕ}

  support_score-IsUnit :
      (s : MemoryFeatureScore Float) (ss : List (MemoryFeatureScore Float))
      → IsOrder F
      → IsUnit F (support_score F total s ss)
  unfolding support_score
  support_score-IsUnit s ss o = clamp-IsUnit F o _

  -- An assessment of some memories that says supported has a score between 0 and 1 that reaches the
  -- threshold of the phase, a risk below 0.5, and words or relations in common with the query.
  pub assess_supported :
      (query_terms : List Text) (s : MemoryFeatureScore Float)
      (ss : List (MemoryFeatureScore Float)) (phase : Text)
      → IsOrder F
      → ((assess_answerability F total query_terms (s ∷ ss) phase).status == codes "supported")
        ≡ true
      → IsUnit F (assess_answerability F total query_terms (s ∷ ss) phase).score
        × (le F
              (threshold_for_phase F total phase)
              (assess_answerability F total query_terms (s ∷ ss) phase).score
            ≡ true)
        × (too_risky F total s ss ≡ false)
        × (uncovered F total s ss ≡ false)
  unfolding assess_answerability
  assess_supported query_terms s ss phase o h =
      elim (Bool-cases (is_empty (filter_by (λ t. not (is_empty (strip t))) query_terms))) [
        | inl e ↦ absurd (ground (arith, h, e, unsupported_differs))
        | inr e ↦
            elim (Bool-cases (
              le F (threshold_for_phase F total phase) (support_score F total s ss)
              && not (too_risky F total s ss || uncovered F total s ss))) [
                | inl f ↦
                    rw (e, f, assess_answerability)
                      (
                        support_score-IsUnit s ss o,
                        ground (arith, f),
                        ground (arith, f),
                        ground (arith, f),
                      )
                | inr f ↦ absurd (ground (arith, h, e, f, unsupported_differs))
              ]
      ]
