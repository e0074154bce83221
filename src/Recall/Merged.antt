-- ===== src/Recall/Merged.antt =====
-- What a candidate of a recall always is, and that merging proposals keeps it.
use agent_memory_living_memo.Prelude.{
  ◌≡◌, false, inl, inr, Bool-cases, Option, some, none, Option-cases, List, [], ◌∷◌, ◌++◌, All,
  Text, contains, Distinct, contains-append, refl, Text_eq, arith, text_eq_iff,
}
use agent_memory_living_memo.Prelude.Dict
use agent_memory_living_memo.Prelude.Floats.{
  Floats, IsOrder, IsUnit, clamp-IsUnit, fmax, fmin, fmax-IsUnit, asym,
}
use agent_memory_living_memo.Schema.{MemoryEnvelope}
use agent_memory_living_memo.Schema.Modality.{or_value}
use agent_memory_living_memo.Recall.{
  RecallResult, Candidates, Proposal, add_reason, add_signal, mean_confidence, merged, merge,
  merge_all,
}

append-Distinct :
    (a : Text) (xs : List Text) → contains xs a ≡ false → Distinct xs → Distinct (xs ++ a ∷ [])
unfolding contains
append-Distinct a [] h d = (refl, tt)
append-Distinct a (x ∷ xs) h d =
    ground (arith, text_eq_iff a x, contains-append x xs (a ∷ []), append-Distinct a xs)

module _ (F : Floats) where
  open F use {Float, lt, of_ℕ}

  -- The score and the signals are between 0 and 1, the confidence is at most 1, and no reason is
  -- named twice.
  pub record IsCandidate (r : RecallResult Float) : Type 0 where
    pub score : IsUnit F r.score
    pub certain : lt (of_ℕ 1) r.confidence ≡ false
    pub reasons : Distinct r.why_retrieved
    pub signals : All (λ item. IsUnit F item.1) r.layer_signals

  add_reason-Distinct :
      (reason : Text) (r : RecallResult Float)
      → Distinct r.why_retrieved
      → Distinct (add_reason reason r).why_retrieved
  unfolding add_reason
  add_reason-Distinct reason r d = elim (Bool-cases (contains r.why_retrieved reason)) [
    | inl e ↦ rw (e, add_reason) d
    | inr e ↦ rw (e, add_reason) (append-Distinct reason r.why_retrieved e d)
  ]

  add_reason-eq :
      (reason : Text) (r : RecallResult Float)
      → add_reason reason r ≡ record r { why_retrieved = (add_reason reason r).why_retrieved }
  unfolding add_reason
  add_reason-eq reason r = elim (Bool-cases (contains r.why_retrieved reason)) [
    | inl e ↦ rw (e, add_reason) refl
    | inr e ↦ rw (e, add_reason) refl
  ]

  module _ (o : IsOrder F) where
    pub zero-IsUnit : IsUnit F (of_ℕ 0)
    zero-IsUnit = record { low = o.irrefl _; high = asym F o _ _ o.zero-lt-one }

    signal-IsUnit :
        (layer : Text) (signals : List (Text × Float))
        → All (λ item. IsUnit F item.1) signals
        → IsUnit F (or_value (Dict.get layer signals) (of_ℕ 0))
    signal-IsUnit layer signals h = elim (Option-cases (Dict.get layer signals)) [
      | inl e ↦ rw e zero-IsUnit
      | inr (v, e) ↦ rw e (Dict.All-get (IsUnit F) layer signals h e)
    ]

    -- A further reason with a signal between 0 and 1 leaves a candidate one.
    pub add_signal-IsCandidate :
        (layer : Text) (x : Float) (r : RecallResult Float)
        → IsUnit F x
        → IsCandidate r
        → IsCandidate (add_signal F layer x (add_reason layer r))
    unfolding add_signal
    add_signal-IsCandidate layer x r u k = rw (add_reason-eq layer r) (record {
      score = k.score;
      certain = k.certain;
      reasons = add_reason-Distinct layer r k.reasons;
      signals =
          Dict.All-put (IsUnit F) layer _ r.layer_signals
            (fmax-IsUnit F _ x (signal-IsUnit layer r.layer_signals k.signals) u) k.signals;
    })

    fmin-high : (x : Float) → lt (of_ℕ 1) (fmin F (of_ℕ 1) x) ≡ false
    unfolding fmin
    fmin-high x = ground (arith, o.irrefl (of_ℕ 1), asym F o x (of_ℕ 1))

    fmax-high :
        (x y : Float)
        → lt (of_ℕ 1) x ≡ false
        → lt (of_ℕ 1) y ≡ false
        → lt (of_ℕ 1) (fmax F x y) ≡ false
    unfolding fmax
    fmax-high x y p q = ground arith

    merged-IsCandidate :
        (p : Proposal Float) (x : Float) (old : Option (RecallResult Float))
        → IsUnit F x
        → ((r : RecallResult Float) → old ≡ some r → IsCandidate r)
        → IsCandidate (merged F p x old)
    unfolding merged
    merged-IsCandidate p x none u k = record {
      score = u;
      certain = fmin-high _;
      reasons = (refl, tt);
      signals = (u, tt);
    }
    merged-IsCandidate p x (some r) u k =
        let c = k r refl in
        add_signal-IsCandidate p.layer x _ u (record {
          score = fmax-IsUnit F r.score x c.score u;
          certain = fmax-high r.confidence _ c.certain (fmin-high _);
          reasons = c.reasons;
          signals = c.signals;
        })

    -- Every candidate is one, and no memory has two.
    pub record AreCandidates (candidates : Candidates Float) : Type 0 where
      pub each : All (λ item. IsCandidate item.1) candidates
      pub once : Distinct (Dict.keys candidates)

    merge-AreCandidates :
        (p : Proposal Float) (candidates : Candidates Float)
        → AreCandidates candidates
        → AreCandidates (merge F p candidates)
    unfolding merge
    merge-AreCandidates p candidates k = record {
      each =
          Dict.All-put IsCandidate p.memory.id _ candidates
            (merged-IsCandidate p _ _ (clamp-IsUnit F o p.score)
              λ r e. Dict.All-get IsCandidate p.memory.id candidates k.each e)
            k.each;
      once = Dict.put-Distinct p.memory.id _ candidates k.once;
    }

    pub merge_all-AreCandidates :
        (ps : List (Proposal Float)) (candidates : Candidates Float)
        → AreCandidates candidates
        → AreCandidates (merge_all F ps candidates)
    unfolding merge_all
    merge_all-AreCandidates [] candidates k = k
    merge_all-AreCandidates (p ∷ ps) candidates k =
        merge_all-AreCandidates ps (merge F p candidates) (merge-AreCandidates p candidates k)

  -- What holds of the memories that are proposed holds of those of the candidates.
  module _ {κ} (P : MemoryEnvelope Float → Type κ) where
    merged-memory :
        (p : Proposal Float) (x : Float) (old : Option (RecallResult Float))
        → P p.memory
        → ((r : RecallResult Float) → old ≡ some r → P r.memory)
        → P (merged F p x old).memory
    unfolding merged add_signal
    merged-memory p x none u k = u
    merged-memory p x (some r) u k =
        rw
          (add_reason-eq p.layer (record r {
            score = fmax F r.score x;
            confidence = fmax F r.confidence (mean_confidence F x p.memory);
          }))
          (k r refl)

    pub merge_all-memory :
        (ps : List (Proposal Float)) (candidates : Candidates Float)
        → All (λ p. P p.memory) ps
        → All (λ item. P item.1.memory) candidates
        → All (λ item. P item.1.memory) (merge_all F ps candidates)
    unfolding merge_all merge
    merge_all-memory [] candidates k l = l
    merge_all-memory (p ∷ ps) candidates k l = merge_all-memory ps (merge F p candidates) k.1 (
        Dict.All-put (λ r. P r.memory) p.memory.id _ candidates
          (merged-memory p _ _ k.0 λ r e. Dict.All-get (λ r. P r.memory) p.memory.id candidates l e)
          l)
