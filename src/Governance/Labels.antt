-- ===== src/Governance/Labels.antt =====
-- What the labels keep out of prompts.
use agent_memory_living_memo.Prelude.{
  ◌≡◌, refl, ◌∙◌, arith, Bool, true, false, not, List, [], ◌∷◌, ◌++◌, Text, Text_eq, text_eq,
  text_eq_iff, codes, contains, contains-append, contains-dedup, contains-filter_by, dedup, any_of,
  filter_by, is_empty,
}
use agent_memory_living_memo.Prelude.Among.{contains-sort_by}
use agent_memory_living_memo.Prelude.Strings.{text_before}
use agent_memory_living_memo.Lifecycle.{has_any}
use agent_memory_living_memo.Governance.{
  Guarded, inspect_only_labels, metadata_labels, level_labels, tag_labels, text_labels,
  has_credential, found_labels, safety_labels_for, inspect_only, prompt_text_for,
}

any_of-contains :
    (test : Text → Bool) (xs : List Text) (a : Text)
    → contains xs a ≡ true
    → test a ≡ true
    → any_of test xs ≡ true
unfolding contains any_of
any_of-contains test [] a h t = ground (arith, h)
any_of-contains test (x ∷ xs) a h t =
    ground (arith, any_of-contains test xs a, text_eq_iff x a, h, t)

in_right : (xs ys : List Text) (a : Text) → contains ys a ≡ true → contains (xs ++ ys) a ≡ true
in_right xs ys a h = ground (arith, h, contains-append a xs ys)

module _ (lower : Text → Text) (pii_marks : Text → Bool) where
  -- a label that is found, and is not empty, is among the safety labels
  safety_labels_for-contains :
      (m : Guarded) (label : Text)
      → contains (found_labels lower pii_marks m) label ≡ true
      → is_empty label ≡ false
      → contains (safety_labels_for lower pii_marks m) label ≡ true
  unfolding safety_labels_for
  safety_labels_for-contains m label h e =
      let found = found_labels lower pii_marks m in
      contains-sort_by text_before label (filter_by (λ l. not (is_empty l)) (dedup found))
      ∙ ground (
        arith,
        contains-filter_by (λ l. not (is_empty l)) label (dedup found),
        contains-dedup label found,
        h,
        e,
      )

  text_labels-contains :
      (m : Guarded)
      → has_credential lower pii_marks m ≡ true
      → contains (text_labels lower pii_marks m) (codes "credential") ≡ true
  unfolding text_labels contains text_eq
  text_labels-contains m h = rw (h, text_labels) refl

  found_labels-contains :
      (m : Guarded)
      → has_credential lower pii_marks m ≡ true
      → contains (found_labels lower pii_marks m) (codes "credential") ≡ true
  unfolding found_labels
  found_labels-contains m h =
      let c = codes "credential" in
      let meta = metadata_labels lower pii_marks m in
      let level = level_labels lower pii_marks m in
      let tag = tag_labels lower pii_marks m in
      let text = text_labels lower pii_marks m in
      in_right meta (level ++ (tag ++ text)) c
        (in_right level (tag ++ text) c (in_right tag text c (text_labels-contains m h)))

  credential_named : is_empty (codes "credential") ≡ false
  unfolding is_empty
  credential_named = refl

  credential_inspected : contains inspect_only_labels (codes "credential") ≡ true
  unfolding contains text_eq
  credential_inspected = refl

  -- A memory whose text holds a marker of a credential is for inspection only, whatever else it
  -- holds, and its text is replaced in prompts by a note that depends on its labels and id alone.
  pub credential_withheld :
      (m other : Guarded)
      → has_credential lower pii_marks m ≡ true
      → other.id ≡ m.id
      → safety_labels_for lower pii_marks other ≡ safety_labels_for lower pii_marks m
      → (inspect_only lower pii_marks m ≡ true)
        × (prompt_text_for lower pii_marks m ≡ prompt_text_for lower pii_marks other)
  unfolding inspect_only prompt_text_for has_any
  credential_withheld m other h i l =
      let c = codes "credential" in
      let p =
        any_of-contains (contains inspect_only_labels) (safety_labels_for lower pii_marks m) c
          (safety_labels_for-contains m c (found_labels-contains m h) credential_named)
          credential_inspected in
      (p, rw (i, l, prompt_text_for) (rw (p) refl))
