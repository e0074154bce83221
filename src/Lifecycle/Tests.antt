-- ===== src/Lifecycle/Tests.antt =====
-- Runs of the life cycle, and the theorems about it at concrete inputs.
use agent_memory_living_memo.Prelude.{
  ℕ, ◌≡◌, refl, true, false, none, some, [], ◌∷◌, Text, Text_eq, text_eq, codes,
}
use agent_memory_living_memo.Prelude.Floats.{IsUnit, cents, cents-IsOrder}
use agent_memory_living_memo.Lifecycle.{
  LifecycleView, state_of, effective_importance, adjusted_score, should_recall,
}
use agent_memory_living_memo.Lifecycle.Bounds.{adjusted_score-IsUnit}

abbrev lower : Text → Text
lower t = t

abbrev view : Text → LifecycleView ℕ
view state = record {
  state = state;
  version = none;
  supersedes = [];
  superseded_by = none;
  valid_from = some 10;
  valid_to = none;
  usage_count = 2;
  last_used_at = none;
  importance_delta = 5;
  base_importance = 50;
}

-- before its time a memory is recalled by a question about the past only
before_its_time :
    should_recall cents lower (view (codes "active")) (codes "tabs" ∷ []) (some 5) ≡ false
unfolding should_recall text_eq
before_its_time = refl

asked_about_the_past :
    should_recall cents lower (view (codes "active")) (codes " old " ∷ []) (some 5) ≡ true
unfolding should_recall text_eq
asked_about_the_past = refl

unknown_state : state_of lower (codes "gone") ≡ codes "active"
unfolding state_of text_eq
unknown_state = refl

adjusted_score-IsUnit_example :
    IsUnit cents (
      effective_importance cents lower
        (view (codes "archival"))
        (some 400)
        (codes "old" ∷ [])
        (some 5))
    × IsUnit cents
        (adjusted_score cents lower (view (codes "archival")) 250 (codes "old" ∷ []) (some 5))
adjusted_score-IsUnit_example =
    adjusted_score-IsUnit cents lower (view (codes "archival")) 250 (some 400) (codes "old" ∷ [])
      (some 5) cents-IsOrder
