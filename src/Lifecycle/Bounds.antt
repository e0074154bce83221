-- ===== src/Lifecycle/Bounds.antt =====
-- Scores stay between 0 and 1, and a deleted memory has none.
use agent_memory_living_memo.Prelude.{
  ◌≡◌, refl, arith, false, inl, inr, Bool-cases, Option, none, List, Text, Text_eq,
}
use agent_memory_living_memo.Prelude.Floats.{Floats, IsOrder, IsUnit, clamp-IsUnit}
use agent_memory_living_memo.Lifecycle.{
  LifecycleView, is_deleted, active_at, effective_importance, adjusted_score, should_recall,
}

module _ (F : Floats) (lower : Text → Text) where
  open F use {Float, of_ℕ}

  zero-IsUnit : IsOrder F → IsUnit F (of_ℕ 0)
  zero-IsUnit o = record {
    low = o.irrefl (of_ℕ 0);
    high = ground (arith, o.trans (of_ℕ 0) (of_ℕ 1) (of_ℕ 0), o.zero-lt-one, o.irrefl (of_ℕ 0));
  }

  -- The effective importance of a memory and its adjusted score are between 0 and 1, whatever its
  -- counters, corrections and times are, at any query and any time.
  pub adjusted_score-IsUnit :
      (v : LifecycleView Float) (score : Float) (base : Option Float) (terms : List Text)
      (at_time : Option Float)
      → IsOrder F
      → IsUnit F (effective_importance F lower v base terms at_time)
        × IsUnit F (adjusted_score F lower v score terms at_time)
  unfolding effective_importance adjusted_score
  adjusted_score-IsUnit v score base terms at_time o = elim (Bool-cases (is_deleted v)) [
    | inl e ↦ rw (e, effective_importance, adjusted_score) (zero-IsUnit o, zero-IsUnit o)
    | inr e ↦ rw (e, effective_importance, adjusted_score) (clamp-IsUnit F o _, clamp-IsUnit F o _)
  ]

  -- A memory that is not recalled although no time is asked for is deleted: at any time and for any
  -- terms it is not recalled, and its importance and its score are 0.
  pub should_recall_never :
      (v : LifecycleView Float) (terms other : List Text) (base at_time : Option Float)
      (score : Float)
      → should_recall F lower v terms none ≡ false
      → (should_recall F lower v other at_time ≡ false)
        × (effective_importance F lower v base other at_time ≡ of_ℕ 0)
        × (adjusted_score F lower v score other at_time ≡ of_ℕ 0)
  unfolding should_recall effective_importance adjusted_score active_at
  should_recall_never v terms other base at_time score h = elim (Bool-cases (is_deleted v)) [
    | inl e ↦ rw (e, should_recall, effective_importance, adjusted_score) (refl, refl, refl)
    | inr e ↦ absurd (ground (arith, h, e))
  ]
