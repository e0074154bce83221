-- ===== src/Answerability/Tests.antt =====
-- A run of the assessment, and the theorem about it at a concrete input.
use agent_memory_living_memo.Prelude.{
  ℕ, ◌+◌, ◌≡◌, refl, true, false, List, [], ◌∷◌, Text_eq, text_eq, codes,
}
use agent_memory_living_memo.Prelude.Floats.{cents, cents-IsOrder, IsUnit, le}
use agent_memory_living_memo.Scoring.{MemoryFeatureScore}
use agent_memory_living_memo.Answerability.{
  threshold_for_phase, too_risky, uncovered, assess_answerability,
}
use agent_memory_living_memo.Answerability.Support.{assess_supported}

abbrev total : List ℕ → ℕ
total [] = 0
total (x ∷ xs) = x + total xs

abbrev found : ℕ → MemoryFeatureScore ℕ
found risk = record {
  memory_id = codes "m";
  utility = 80;
  features = (codes "lexical", 90) ∷ (codes "confidence", 100) ∷ [];
  penalties = (codes "risk", risk) ∷ [];
  reasons = [];
}

withheld :
    (assess_answerability cents total (codes "tabs" ∷ []) (found 75 ∷ []) (codes "planning")).status
    ≡ codes "unsupported"
unfolding assess_answerability text_eq
withheld = refl

assess_supported_example :
    IsUnit cents
      (assess_answerability cents total
        (codes "tabs" ∷ [])
        (found 10 ∷ [])
        (codes "planning")).score
    × (le cents
          (threshold_for_phase cents total (codes "planning"))
          (assess_answerability cents total
            (codes "tabs" ∷ [])
            (found 10 ∷ [])
            (codes "planning")).score
        ≡ true)
    × (too_risky cents total (found 10) [] ≡ false)
    × (uncovered cents total (found 10) [] ≡ false)
unfolding assess_answerability text_eq
assess_supported_example =
    assess_supported cents total (codes "tabs" ∷ []) (found 10) [] (codes "planning") cents-IsOrder
      refl
