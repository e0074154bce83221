-- ===== src/Context/Tests.antt =====
-- A context with room for one text and a part of another, and the theorem about the budget.
use agent_memory_living_memo.Prelude.{
  ℕ, Bool, false, ◌≡◌, ◌≤◌, refl, arith, none, List, [], ◌∷◌, All, Text, Text_eq, text_eq, codes,
  map,
}
use agent_memory_living_memo.Prelude.Floats.{cents}
use agent_memory_living_memo.Prelude.Results.{Result, raised, done}
use agent_memory_living_memo.Lifecycle.Metadata.{Convert}
use agent_memory_living_memo.Schema.Host.{Error}
use agent_memory_living_memo.Schema.Samples.{note, toy}
use agent_memory_living_memo.Recall.{RecallResult}
use agent_memory_living_memo.Context.{EvidencePacket, ContextAssembler, assemble, total_tokens}
use agent_memory_living_memo.Context.Budget.{IsPacket, assemble-IsPacket}

abbrev opaque_values : Convert ℕ
opaque_values = record {
  str = λ v. codes "value";
  float = λ v. none;
  int = λ v. none;
  int_of_float = λ v. none;
}

abbrev no_marks : Text → Bool
no_marks t = false

abbrev result : ℕ → RecallResult ℕ
result score = record {
  memory = note;
  score = score;
  confidence = 100;
  why_retrieved = codes "fts" ∷ [];
  layer_signals = [];
}

abbrev small : ContextAssembler
small = record { max_tokens = 3; chars_per_token = 4 }

abbrev outcome : Result Error (List (EvidencePacket ℕ))
outcome = assemble cents toy opaque_values no_marks small (result 20 ∷ result 80 ∷ result 10 ∷ [])

abbrev packets : List (EvidencePacket ℕ)
packets = elim outcome [ raised e ↦ [] | done ps ↦ ps ]

best_first : map (λ p. p.score) packets ≡ 80 ∷ 20 ∷ []
unfolding assemble text_eq
best_first = refl

cut_to_the_budget : map (λ p. p.snippet) packets ≡ codes "use tabs" ∷ codes "use" ∷ []
unfolding assemble text_eq
cut_to_the_budget = refl

outcome-done : outcome ≡ done packets
unfolding assemble text_eq
outcome-done = refl

assemble-IsPacket_example :
    (total_tokens packets ≤ 3) × All (IsPacket cents toy opaque_values no_marks small) packets
assemble-IsPacket_example =
    assemble-IsPacket cents toy opaque_values no_marks small
      (result 20 ∷ result 80 ∷ result 10 ∷ []) (omega arith) outcome-done
