-- ===== src/Recall.antt =====
-- recall.py: the candidates that the layers of the pipeline propose are merged by their memory's id,
-- adjusted by their lifecycle, ranked and cut.
pub mod Lexical
pub mod Layers
pub mod Seeds
pub mod Pipeline
pub mod Merged
pub mod Ranked
pub mod Matched
pub mod Near
pub mod Found
mod Tests
use agent_memory_living_memo.Prelude.{
  ℕ, Bool, true, false, not, ◌&&◌, ◌||◌, Option, none, some, List, [], ◌∷◌, ◌++◌, map, Text,
  Text_eq, codes, ◌==◌, contains, take, if◌then◌else◌,
}
use agent_memory_living_memo.Prelude.Dict
use agent_memory_living_memo.Prelude.Floats.{Floats, fmax, fmin, clamp}
use agent_memory_living_memo.Prelude.Sort.{sort_by}
use agent_memory_living_memo.Schema.{MemoryEnvelope}
use agent_memory_living_memo.Schema.Modality.{or_value}
use agent_memory_living_memo.Lifecycle.{
  LifecycleView, should_recall, adjusted_score, effective_importance,
}
use agent_memory_living_memo.Lifecycle.Metadata.{Convert, lifecycle_for}
use agent_memory_living_memo.Graph.{same_time}

pub record RecallResult (N : Type 0) : Type 0 where
  pub memory : MemoryEnvelope N
  pub score : N
  pub confidence : N
  pub why_retrieved : List Text
  pub layer_signals : List (Text × N)

-- `candidates`, by the ids of their memories
abbrev pub Candidates : Type 0 → Type 0
Candidates N = List (Text × RecallResult N)

-- A memory that a layer proposes, with the layer's name and a score.
pub record Proposal (N : Type 0) : Type 0 where
  pub memory : MemoryEnvelope N
  pub layer : Text
  pub score : N

module _ {N : Type 0} where
  unfoldable pub add_reason : Text → RecallResult N → RecallResult N
  unfolding contains
  add_reason reason r =
      if contains r.why_retrieved reason
      then r
      else record r { why_retrieved = r.why_retrieved ++ reason ∷ [] }

module _ (F : Floats) where
  open F use {Float, lt, add, div, of_ℕ}

  unfoldable pub add_signal : Text → Float → RecallResult Float → RecallResult Float
  unfolding Dict.get Dict.put fmax
  add_signal layer score r = record r {
    layer_signals =
        Dict.put layer (fmax F (or_value (Dict.get layer r.layer_signals) (of_ℕ 0)) score)
          r.layer_signals;
  }

  -- `min(1.0, (score + memory.confidence) / 2)`
  abbrev pub mean_confidence : Float → MemoryEnvelope Float → Float
  mean_confidence score memory = fmin F (of_ℕ 1) (div (add score memory.confidence) (of_ℕ 2))

  -- the candidate after a proposal of its memory, with the clamped score
  unfoldable pub merged : Proposal Float → Float → Option (RecallResult Float) → RecallResult Float
  unfolding fmin fmax add_reason add_signal
  merged p score none = record {
    memory = p.memory;
    score = score;
    confidence = mean_confidence score p.memory;
    why_retrieved = p.layer ∷ [];
    layer_signals = (p.layer, score) ∷ [];
  }
  merged p score (some current) = add_signal p.layer score (
      add_reason p.layer (record current {
        score = fmax F current.score score;
        confidence = fmax F current.confidence (mean_confidence score p.memory);
      }))

  -- `_merge`
  unfoldable pub merge : Proposal Float → Candidates Float → Candidates Float
  unfolding clamp merged Dict.get Dict.put
  merge p candidates =
      Dict.put p.memory.id (merged p (clamp F p.score) (Dict.get p.memory.id candidates)) candidates

  unfoldable pub merge_all : List (Proposal Float) → Candidates Float → Candidates Float
  unfolding merge
  merge_all [] candidates = candidates
  merge_all (p ∷ ps) candidates = merge_all ps (merge p candidates)

  -- what decides between equal keys
  abbrev pub before_float : Float → Float → Bool → Bool
  before_float x y rest = if lt y x then true else not (lt x y) && rest

  module _ (convert : Convert Float) (lower : Text → Text) where
    -- the candidate with its score adjusted
    unfoldable pub adjusted :
        List Text → Option Float → LifecycleView Float → RecallResult Float → RecallResult Float
    unfolding adjusted_score effective_importance clamp add_reason add_signal
    adjusted terms at_time view r =
        let score = adjusted_score F lower view r.score terms at_time in
        let importance = effective_importance F lower view none terms at_time in
        if same_time F lower score r.score && (view.state == codes "active")
        then r
        else add_signal (codes "lifecycle") importance (
            add_reason (codes "lifecycle") (record r {
              score = score;
              confidence = clamp F (div (add r.confidence importance) (of_ℕ 2));
            }))

    -- The loop over the candidates.
    unfoldable pub settled : List Text → Option Float → Candidates Float → List (RecallResult Float)
    unfolding lifecycle_for should_recall adjusted
    settled terms at_time [] = []
    settled terms at_time ((id, r) ∷ candidates) =
        let view = lifecycle_for F convert lower r.memory in
        let rest = settled terms at_time candidates in
        if should_recall F lower view terms at_time
        then adjusted terms at_time view r ∷ rest
        else rest

    -- a critical memory that is active goes first
    abbrev pub is_critical : RecallResult Float → Bool
    is_critical r =
        contains r.why_retrieved (codes "critical")
        && ((lifecycle_for F convert lower r.memory).state == codes "active")

    -- The sort key, with `reverse=True`.
    unfoldable pub ranks_before : RecallResult Float → RecallResult Float → Bool
    unfolding contains lifecycle_for
    ranks_before a b =
        let rest = before_float a.score b.score (
          before_float a.memory.importance b.memory.importance (
            before_float a.memory.confidence b.memory.confidence
              (not (lt a.memory.created_at b.memory.created_at)))) in
        if is_critical a then not (is_critical b) || rest else not (is_critical b) && rest

    -- The last part of `recall`, up to the cache.
    unfoldable pub ranked :
        List Text → Option Float → ℕ → Candidates Float → List (RecallResult Float)
    unfolding settled ranks_before sort_by take
    ranked terms at_time top_k candidates =
        take top_k (sort_by ranks_before (settled terms at_time candidates))
