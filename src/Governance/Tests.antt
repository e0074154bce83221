-- ===== src/Governance/Tests.antt =====
-- The theorem about withheld memories at a concrete input.
use agent_memory_living_memo.Prelude.{
  ◌≡◌, refl, Bool, true, false, [], ◌∷◌, Text, Text_eq, text_eq, codes,
}
use agent_memory_living_memo.Governance.{Guarded, safety_labels_for, inspect_only, prompt_text_for}
use agent_memory_living_memo.Governance.Labels.{credential_withheld}

abbrev lower : Text → Text
lower t = t

abbrev pii_marks : Text → Bool
pii_marks t = false

abbrev key : Text → Guarded
key text = record {
  id = codes "m";
  tags = codes "style" ∷ [];
  sensitivity = codes "normal";
  raw_labels = [];
  text_content = text;
}

credential_withheld_example :
    (inspect_only lower pii_marks (key (codes "a sk-1")) ≡ true)
    × (prompt_text_for lower pii_marks (key (codes "a sk-1"))
        ≡ prompt_text_for lower pii_marks (key (codes "a sk-2")))
unfolding safety_labels_for text_eq
credential_withheld_example =
    credential_withheld lower pii_marks (key (codes "a sk-1")) (key (codes "a sk-2")) refl refl refl
