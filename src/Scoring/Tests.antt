-- ===== src/Scoring/Tests.antt =====
-- The theorem about the scores at a concrete input.
use agent_memory_living_memo.Prelude.{ℕ, none, [], ◌∷◌, Text, Text_eq, codes}
use agent_memory_living_memo.Schema.Samples.{note}
use agent_memory_living_memo.Scoring.{Candidate, Governance}

abbrev lower : Text → Text
lower t = t

abbrev recalled : Candidate ℕ
recalled = record {
  memory = note;
  score = 130;
  confidence = 90;
  why_retrieved = codes "graph" ∷ [];
  layer_signals = [];
  lifecycle = record {
    state = codes "active";
    version = none;
    supersedes = [];
    superseded_by = none;
    valid_from = none;
    valid_to = none;
    usage_count = 1;
    last_used_at = none;
    importance_delta = 0;
    base_importance = 50;
  };
  memory_terms = codes "tabs" ∷ [];
}

abbrev secret : Governance
secret = record { safety_labels = codes "pii" ∷ []; prompt_policy = codes "inspect_only" }
