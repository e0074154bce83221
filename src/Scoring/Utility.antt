-- ===== src/Scoring/Utility.antt =====
-- The utility of a memory is bounded, and what is to be inspected only carries a risk.
use agent_memory_living_memo.Prelude.{
  ◌≡◌, refl, arith, true, false, Option, some, List, Text, Text_eq, text_eq, codes, ◌==◌,
}
use agent_memory_living_memo.Prelude.Floats.{Floats, fmax, IsOrder, IsUnit, clamp-IsUnit}
use agent_memory_living_memo.Prelude.Dict
use agent_memory_living_memo.Scoring.{
  Candidate, Governance, governance_risk, utility_of, score_memory_candidate,
}

module _ (F : Floats) (lower : Text → Text) where
  open F use {Float, lt, hundredths}

  utility_of-IsUnit :
      (a b c d e f g h i j : Float) → IsOrder F → IsUnit F (utility_of F lower a b c d e f g h i j)
  unfolding utility_of
  utility_of-IsUnit a b c d e f g h i j o = clamp-IsUnit F o _

  fmax-right : (x y : Float) → IsOrder F → lt (fmax F x y) y ≡ false
  unfolding fmax
  fmax-right x y o = ground (arith, o.irrefl y)

  fmax-left : (x y z : Float) → IsOrder F → lt x z ≡ false → lt (fmax F x y) z ≡ false
  unfolding fmax
  fmax-left x y z o h = ground (arith, h, o.trans x y z)

  governance_risk-inspect_only :
      (g : Governance)
      → IsOrder F
      → (g.prompt_policy == codes "inspect_only") ≡ true
      → lt (governance_risk F lower g) (hundredths 72) ≡ false
  unfolding governance_risk
  governance_risk-inspect_only g o h = ground (
    arith,
    h,
    fmax-right (F.of_ℕ 0) (hundredths 72) o,
    fmax-left (fmax F (F.of_ℕ 0) (hundredths 72)) (hundredths 75) (hundredths 72) o,
    fmax-left (fmax F (F.of_ℕ 0) (hundredths 72)) (hundredths 45) (hundredths 72) o,
    fmax-left (fmax F (fmax F (F.of_ℕ 0) (hundredths 72)) (hundredths 75)) (hundredths 45)
        (hundredths 72) o,
  )

  -- The utility of a memory is between 0 and 1 for every query, phase and time, and the risk that is
  -- recorded for a memory which is to be inspected only is at least 0.72.
  pub score_inspect_only :
      (r : Candidate Float) (query_terms : List Text) (phase : Text) (at_time : Option Float)
      (g : Governance)
      → IsOrder F
      → (g.prompt_policy == codes "inspect_only") ≡ true
      → IsUnit F (score_memory_candidate F lower r query_terms phase at_time g).utility
        × ((risk : Float) × (Dict.get
                (codes "risk")
                (score_memory_candidate F lower r query_terms phase at_time g).penalties
              ≡ some risk)
            × (lt risk (hundredths 72) ≡ false))
  unfolding score_memory_candidate Dict.get text_eq
  score_inspect_only r query_terms phase at_time g o h = (
    utility_of-IsUnit _ _ _ _ _ _ _ _ _ _ o,
    (governance_risk F lower g, refl, governance_risk-inspect_only g o h),
  )
