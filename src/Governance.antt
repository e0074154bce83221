-- ===== src/Governance.antt =====
-- governance.py: the safety labels of a memory, and the text of it that a prompt may hold.
pub mod Labels
mod Tests
use agent_memory_living_memo.Prelude.{
  ℕ, Bool, true, false, not, ◌&&◌, ◌||◌, Option, none, some, List, [], ◌∷◌, ◌++◌, map, Text,
  Text_eq, codes, ◌==◌, contains, dedup, any_of, filter_by, is_empty, take, nat_eq, if◌then◌else◌,
}
use agent_memory_living_memo.Prelude.Sort.{sort_by}
use agent_memory_living_memo.Prelude.Strings.{strip, join, replace_char}
use agent_memory_living_memo.Prelude.Strings.{text_before}
use agent_memory_living_memo.Lifecycle.{has_any}

abbrev pub inspect_only_labels : List Text
inspect_only_labels =
    codes "credential" ∷ codes "pii" ∷ codes "prompt_attack" ∷ codes "restricted" ∷ []

abbrev pub sensitive_levels : List Text
sensitive_levels =
    codes "sensitive"
    ∷ codes "confidential"
    ∷ codes "restricted"
    ∷ codes "credential"
    ∷ codes "pii"
    ∷ []

abbrev pub credential_markers : List Text
credential_markers =
    codes "api key"
    ∷ codes "apikey"
    ∷ codes "bearer "
    ∷ codes "chave api"
    ∷ codes "credential"
    ∷ codes "password"
    ∷ codes "secret"
    ∷ codes "segredo"
    ∷ codes "senha"
    ∷ codes "sk-"
    ∷ codes "xoxb-"
    ∷ []

abbrev pub prompt_attack_markers : List Text
prompt_attack_markers =
    codes "disregard previous instructions"
    ∷ codes "exfiltrate"
    ∷ codes "export the memory vault"
    ∷ codes "ignore all previous instructions"
    ∷ codes "ignore previous instructions"
    ∷ codes "reveal secrets"
    ∷ codes "system prompt"
    ∷ []

abbrev pub prompt_attack_tags : List Text
prompt_attack_tags =
    codes "prompt-attack"
    ∷ codes "prompt-injection"
    ∷ codes "prompt_attack"
    ∷ codes "prompt_injection"
    ∷ codes "unsafe-media"
    ∷ codes "unsafe_media"
    ∷ []

-- What is read of a memory: its id, its tags, its sensitivity, the labels in its metadata and the
-- text of its parts.
pub record Guarded : Type 0 where
  pub id : Text
  pub tags : List Text
  pub sensitivity : Text
  pub raw_labels : List Text
  pub text_content : Text

-- `text.startswith(marker)` and `marker in text`
unfoldable pub starts_with : Text → Text → Bool
starts_with [] text = true
starts_with (c ∷ marker) [] = false
starts_with (c ∷ marker) (d ∷ text) = nat_eq c d && starts_with marker text

unfoldable pub occurs_in : Text → Text → Bool
unfolding starts_with
occurs_in marker [] = is_empty marker
occurs_in marker (d ∷ text) = starts_with marker (d ∷ text) || occurs_in marker text

-- `pii_marks` is the search of a text for the patterns of addresses and of numbers of persons.
module _ (lower : Text → Text) (pii_marks : Text → Bool) where
  unfoldable pub normalize_label : Text → Text
  unfolding strip replace_char
  normalize_label value = replace_char 32 95 (replace_char 45 95 (lower (strip value)))

  unfoldable pub normalized_sensitivity : Text → Text
  unfolding normalize_label is_empty
  normalized_sensitivity value =
      let text = normalize_label (if is_empty value then codes "normal" else value) in
      if is_empty text then codes "normal" else text

  abbrev when : Bool → Text → List Text
  when b label = if b then label ∷ [] else []

  -- the labels of the metadata
  unfoldable pub metadata_labels : Guarded → List Text
  unfolding normalize_label strip is_empty filter_by
  metadata_labels m =
      map normalize_label (filter_by (λ item. not (is_empty (strip item))) m.raw_labels)

  unfoldable pub level_labels : Guarded → List Text
  unfolding normalized_sensitivity contains
  level_labels m =
      let sensitivity = normalized_sensitivity m.sensitivity in
      when (contains sensitive_levels sensitivity) sensitivity

  unfoldable pub tag_labels : Guarded → List Text
  unfolding normalize_label contains has_any
  tag_labels m =
      let tags = map normalize_label m.tags in
      when (has_any tags prompt_attack_tags) (codes "prompt_attack")
      ++ (when (contains tags (codes "credential")) (codes "credential")
          ++ when (contains tags (codes "pii")) (codes "pii"))

  abbrev pub has_credential : Guarded → Bool
  has_credential m = any_of (λ marker. occurs_in marker (lower m.text_content)) credential_markers

  unfoldable pub text_labels : Guarded → List Text
  unfolding occurs_in any_of
  text_labels m =
      let text = lower m.text_content in
      when (has_credential m) (codes "credential")
      ++ (when (pii_marks text) (codes "pii")
          ++ when (any_of (λ marker. occurs_in marker text) prompt_attack_markers)
              (codes "prompt_attack"))

  -- The labels that are added, before they are sorted.
  unfoldable pub found_labels : Guarded → List Text
  unfolding metadata_labels level_labels tag_labels text_labels
  found_labels m = metadata_labels m ++ (level_labels m ++ (tag_labels m ++ text_labels m))

  unfoldable pub safety_labels_for : Guarded → List Text
  unfolding found_labels dedup sort_by text_before filter_by is_empty
  safety_labels_for m =
      sort_by text_before (filter_by (λ label. not (is_empty label)) (dedup (found_labels m)))

  -- whether the policy is "inspect_only", else it is "inline"
  unfoldable pub inspect_only : Guarded → Bool
  unfolding safety_labels_for has_any
  inspect_only m = has_any (safety_labels_for m) inspect_only_labels

  unfoldable pub prompt_text_for : Guarded → Text
  unfolding inspect_only safety_labels_for take join is_empty
  prompt_text_for m =
      let joined = join (codes ",") (take 4 (safety_labels_for m)) in
      let labels = if is_empty joined then codes "sensitive" else joined in
      if inspect_only m
      then codes "[memory withheld: "
        ++ (labels ++ (codes "; use inspect_memory(" ++ (m.id ++ codes ") with permission]")))
      else m.text_content
