-- ===== src/Context.antt =====
-- context.py: the packets of evidence that fit into a budget of tokens, best first. The texts are
-- those that governance.py lets through.
pub mod Budget
mod Tests
use agent_memory_living_memo.Prelude.{
  ℕ, ◌+◌, ◌-◌, ◌*◌, ◌/◌, Bool, true, false, not, ◌&&◌, ◌||◌, Option, none, some, List, [], ◌∷◌,
  Text, Text_eq, codes, is_empty, length, take, max, leb, if◌then◌else◌,
}
use agent_memory_living_memo.Prelude.Dict
use agent_memory_living_memo.Prelude.Floats.{Floats}
use agent_memory_living_memo.Prelude.Results.{Result, raised, done, and_then}
use agent_memory_living_memo.Prelude.Sort.{sort_by}
use agent_memory_living_memo.Prelude.Strings.{rstrip}
use agent_memory_living_memo.Governance.{Guarded, prompt_text_for}
use agent_memory_living_memo.Lifecycle.Metadata.{Convert, text_of_true}
use agent_memory_living_memo.Schema.{Dict, MemoryEnvelope}
use agent_memory_living_memo.Schema.Envelope.{text_content}
use agent_memory_living_memo.Schema.Host.{Error, Host}
use agent_memory_living_memo.Schema.Host.Error.{type_error}
use agent_memory_living_memo.Schema.Values.{
  Json, null, bool, num, text, list, dict, Items, nil, cons, Fields, end, field,
}
use agent_memory_living_memo.Recall.{RecallResult, before_float}

pub record EvidencePacket (N : Type 0) : Type 0 where
  pub memory_id : Text
  pub memory_type : Text
  pub created_at : N
  pub source : Option (Json N)
  pub snippet : Text
  pub score : N
  pub confidence : N
  pub why_retrieved : List Text
  pub provenance : Dict N
  pub estimated_tokens : ℕ

pub record ContextAssembler : Type 0 where
  pub max_tokens : ℕ
  pub chars_per_token : ℕ

-- `none` is the ValueError of a budget that is not positive.
unfoldable pub new_assembler : ℕ → ℕ → Option ContextAssembler
new_assembler max_tokens chars_per_token =
    if leb max_tokens 0
    then none
    else some (record { max_tokens = max_tokens; chars_per_token = max 1 chars_per_token })

unfoldable pub estimate_tokens : ContextAssembler → Text → ℕ
estimate_tokens a s = max 1 ((length s + a.chars_per_token - 1) / a.chars_per_token)

-- `_fit_text`
unfoldable pub fit_text : ContextAssembler → Text → ℕ → Text × ℕ
unfolding estimate_tokens rstrip take is_empty
fit_text a s token_budget =
    let tokens = estimate_tokens a s in
    let snippet = rstrip (take (token_budget * a.chars_per_token) s) in
    if is_empty s || leb token_budget 0
    then ([], 0)
    else if leb tokens token_budget
    then (s, tokens)
    else (snippet, estimate_tokens a snippet)

-- the tokens of some packets
unfoldable pub total_tokens : {N : Type 0} → List (EvidencePacket N) → ℕ
total_tokens [] = 0
total_tokens (p ∷ ps) = p.estimated_tokens + total_tokens ps

module _ (F : Floats) (h : Host F.Float) (convert : Convert F.Float) where
  open F use {Float, lt, of_ℕ, hundredths}

  -- whether Python takes a value for true
  abbrev pub is_true : Json Float → Bool
  is_true null = false
  is_true (bool b) = b
  is_true (num x) = lt x (of_ℕ 0) || lt (of_ℕ 0) x
  is_true (text s) = not (is_empty s)
  is_true (list nil) = false
  is_true (list (cons _ _)) = true
  is_true (dict end) = false
  is_true (dict (field _ _ _)) = true

  -- `metadata.get("safety_labels") or metadata.get("safety") or []`
  abbrev pub first_true : Option (Json Float) → Option (Json Float) → Json Float
  first_true none none = list nil
  first_true none (some v) = if is_true v then v else list nil
  first_true (some u) none = if is_true u then u else list nil
  first_true (some u) (some v) = if is_true u then u else if is_true v then v else list nil

  -- the texts of the labels; a false label is empty, and so is left out later
  unfoldable pub label_texts : Items Float → List Text
  unfolding text_of_true
  label_texts nil = []
  label_texts (cons v vs) = text_of_true F convert h.lower v ∷ label_texts vs

  unfoldable pub field_names : Fields Float → List Text
  field_names end = []
  field_names (field key v fs) = key ∷ field_names fs

  -- The items of the labels; a number is a TypeError.
  unfoldable pub raw_labels_of : Json Float → Result Error (List Text)
  unfolding label_texts field_names
  raw_labels_of null = raised type_error
  raw_labels_of (bool b) = raised type_error
  raw_labels_of (num x) = raised type_error
  raw_labels_of (text s) = done (s ∷ [])
  raw_labels_of (list vs) = done (label_texts vs)
  raw_labels_of (dict fs) = done (field_names fs)

  -- What governance.py reads of a memory.
  unfoldable pub guarded_of : MemoryEnvelope Float → Result Error Guarded
  unfolding Dict.get text_content raw_labels_of
  guarded_of m =
      and_then
        (raw_labels_of (
          first_true (Dict.get (codes "safety_labels") m.metadata)
            (Dict.get (codes "safety") m.metadata)))
        λ labels. done (record {
          id = m.id;
          tags = m.tags;
          sensitivity = m.sensitivity;
          raw_labels = labels;
          text_content = text_content h m;
        })

  -- The sort key, with `reverse=True`.
  unfoldable pub ranks_before : RecallResult Float → RecallResult Float → Bool
  ranks_before a b =
      let rest = before_float F a.score b.score (
        before_float F a.memory.importance b.memory.importance
          (not (lt a.memory.created_at b.memory.created_at))) in
      let critical : RecallResult Float → Bool =
        λ r. not (lt r.memory.importance (hundredths 95)) in
      if critical a then not (critical b) || rest else not (critical b) && rest

  abbrev pub packet_of : RecallResult Float → Text → ℕ → EvidencePacket Float
  packet_of r snippet tokens = record {
    memory_id = r.memory.id;
    memory_type = r.memory.memory_type;
    created_at = r.memory.created_at;
    source = Dict.get (codes "source") r.memory.provenance;
    snippet = snippet;
    score = r.score;
    confidence = r.confidence;
    why_retrieved = r.why_retrieved;
    provenance = r.memory.provenance;
    estimated_tokens = tokens;
  }

  module _ (pii_marks : Text → Bool) (a : ContextAssembler) where
    -- The loop over the results, with the tokens used so far.
    unfoldable pub packets_of :
        ℕ → List (RecallResult Float) → Result Error (List (EvidencePacket Float))
    unfolding guarded_of prompt_text_for fit_text is_empty Dict.get
    packets_of used [] = done []
    packets_of used (r ∷ rs) = elim (leb a.max_tokens used) [
      | true ↦ done []
      | false ↦ and_then (guarded_of r.memory) λ g.
          let fit = fit_text a (prompt_text_for h.lower pii_marks g) (a.max_tokens - used) in
          elim (is_empty fit.0) [
            | true ↦ packets_of used rs
            | false ↦
                and_then (packets_of (used + fit.1) rs) λ ps. done (packet_of r fit.0 fit.1 ∷ ps)
          ]
    ]

    unfoldable pub assemble : List (RecallResult Float) → Result Error (List (EvidencePacket Float))
    unfolding sort_by ranks_before packets_of
    assemble results = packets_of 0 (sort_by ranks_before results)
