-- ===== src/Recall/Ranked.antt =====
-- What `recall` returns of its candidates: at most `top_k` of them, each with its score in bounds
-- and with a memory that may be recalled.
use agent_memory_living_memo.Prelude.{
  ℕ, ◌≡◌, ◌≤◌, arith, true, inl, inr, Bool-cases, Option, none, List, [], ◌∷◌, ◌&&◌, All, All-take,
  Text, Text_eq, codes, ◌==◌, length, length-take-le,
}
use agent_memory_living_memo.Prelude.Floats.{Floats, IsOrder, clamp-IsUnit}
use agent_memory_living_memo.Prelude.Sort.{sort_by-All, sort_by}
use agent_memory_living_memo.Schema.{MemoryEnvelope}
use agent_memory_living_memo.Lifecycle.{LifecycleView, should_recall, adjusted_score}
use agent_memory_living_memo.Lifecycle.Bounds.{adjusted_score-IsUnit}
use agent_memory_living_memo.Lifecycle.Metadata.{Convert, lifecycle_for}
use agent_memory_living_memo.Graph.{same_time}
use agent_memory_living_memo.Recall.{
  RecallResult, Candidates, adjusted, settled, ranks_before, ranked, add_reason, add_signal,
}
use agent_memory_living_memo.Recall.Merged.{IsCandidate, AreCandidates, add_signal-IsCandidate}

module _ (F : Floats) (convert : Convert F.Float) (lower : Text → Text) where
  open F use {Float, lt, of_ℕ}

  module _ (terms : List Text) (at_time : Option Float) where
    -- a candidate whose memory may be recalled
    pub record IsResult (r : RecallResult Float) : Type 0 where
      pub candidate : IsCandidate F r
      pub recalled :
          should_recall F lower (lifecycle_for F convert lower r.memory) terms at_time ≡ true

    module _ (o : IsOrder F) where
      adjusted-IsCandidate :
          (v : LifecycleView Float) (r : RecallResult Float)
          → IsCandidate F r
          → IsCandidate F (adjusted F convert lower terms at_time v r)
      unfolding adjusted
      adjusted-IsCandidate v r k =
          let u = adjusted_score-IsUnit F lower v r.score none terms at_time o in
          let same =
            same_time F lower (adjusted_score F lower v r.score terms at_time) r.score
            && (v.state == codes "active") in
          elim (Bool-cases same) [
            | inl e ↦ rw (e, adjusted) k
            | inr e ↦
                rw (e, adjusted)
                  (add_signal-IsCandidate F o (codes "lifecycle") _ _ u.0 (record {
                    score = u.1;
                    certain = (clamp-IsUnit F o _).high;
                    reasons = k.reasons;
                    signals = k.signals;
                  }))
          ]

    adjusted-memory :
        (v : LifecycleView Float) (r : RecallResult Float)
        → (adjusted F convert lower terms at_time v r).memory ≡ r.memory
    unfolding adjusted add_reason add_signal
    adjusted-memory v r = ground arith

    module _ (o : IsOrder F) where
      settled-AreResults :
          (candidates : Candidates Float)
          → All (λ item. IsCandidate F item.1) candidates
          → All IsResult (settled F convert lower terms at_time candidates)
      unfolding settled
      settled-AreResults [] k = tt
      settled-AreResults ((id, r) ∷ candidates) k =
          let view = lifecycle_for F convert lower r.memory in
          elim (Bool-cases (should_recall F lower view terms at_time)) [
            | inl e ↦
                rw (e, settled)
                  (
                    record {
                      candidate = adjusted-IsCandidate o view r k.0;
                      recalled = rw (adjusted-memory view r) e;
                    },
                    settled-AreResults candidates k.1,
                  )
            | inr e ↦ rw (e, settled) (settled-AreResults candidates k.1)
          ]

    -- The last part of a recall keeps the bounds: it has at most `top_k` results, and each is one.
    pub ranked-AreResults :
        (candidates : Candidates Float) (top_k : ℕ) (o : IsOrder F)
        → AreCandidates F o candidates
        → (length (ranked F convert lower terms at_time top_k candidates) ≤ top_k)
          × All IsResult (ranked F convert lower terms at_time top_k candidates)
    unfolding ranked
    ranked-AreResults candidates top_k o k =
        let found = settled F convert lower terms at_time candidates in
        (
          length-take-le top_k (sort_by (ranks_before F convert lower) found),
          All-take IsResult top_k _ (
              sort_by-All (ranks_before F convert lower) IsResult found
                (settled-AreResults o candidates k.each)),
        )

    -- What holds of the memories of the candidates holds of those of the results.
    module _ {κ} (P : MemoryEnvelope Float → Type κ) where
      settled-memory :
          (candidates : Candidates Float)
          → All (λ item. P item.1.memory) candidates
          → All (λ r. P r.memory) (settled F convert lower terms at_time candidates)
      unfolding settled
      settled-memory [] k = tt
      settled-memory ((id, r) ∷ candidates) k =
          let view = lifecycle_for F convert lower r.memory in
          elim (Bool-cases (should_recall F lower view terms at_time)) [
            | inl e ↦
                rw (e, settled) (rw (adjusted-memory view r) k.0, settled-memory candidates k.1)
            | inr e ↦ rw (e, settled) (settled-memory candidates k.1)
          ]

      pub ranked-memory :
          (candidates : Candidates Float) (top_k : ℕ)
          → All (λ item. P item.1.memory) candidates
          → All (λ r. P r.memory) (ranked F convert lower terms at_time top_k candidates)
      unfolding ranked
      ranked-memory candidates top_k k =
          All-take (λ r. P r.memory) top_k _
            (sort_by-All (ranks_before F convert lower) (λ r. P r.memory)
              (settled F convert lower terms at_time candidates) (settled-memory candidates k))
