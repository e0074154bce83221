-- ===== src/Schema/Envelope.antt =====
-- `MemoryEnvelope`: its constructor, its hash, its dictionary, and the text that it is found by.
use agent_memory_living_memo.Prelude.{
  Bool, true, false, not, ◌||◌, Option, none, some, List, [], ◌∷◌, ◌++◌, map, Text, Text_eq, codes,
  any_of, filter_by, is_empty, take, if◌then◌else◌,
}
use agent_memory_living_memo.Prelude.Floats.{Floats}
use agent_memory_living_memo.Prelude.Results.{Result, raised, done, and_then}
use agent_memory_living_memo.Prelude.Strings.{join}
use agent_memory_living_memo.Prelude.Strings.Order.{sorted_set}
use agent_memory_living_memo.Schema.{
  Dict, Content, ModalityRef, RelationItem, MemoryEnvelope, Material, IdMaterial,
}
use agent_memory_living_memo.Schema.Host.{Error, Host}
use agent_memory_living_memo.Schema.Modality.{modalities_of, searchable_text, or_value}
use agent_memory_living_memo.Schema.Content.{bytes}
use agent_memory_living_memo.Schema.Host.Error.{value_error, type_error}

-- What `from_dict` reads: `none` is a key that is missing, or a value that is None. The text of a
-- missing key is empty. That the source refuses a None for a number, where a missing key has a
-- default, is left out.
pub record EnvelopeDict (N : Type 0) : Type 0 where
  pub id : Text
  pub created_at : Option N
  pub updated_at : Option N
  pub scope : Dict N
  pub memory_type : Text
  pub modalities : List (ModalityRef N)
  pub tags : List Text
  pub entities : List Text
  pub relations : List (RelationItem N)
  pub importance : Option N
  pub confidence : Option N
  pub sensitivity : Option Text
  pub provenance : Dict N
  pub metadata : Dict N
  pub content_hash : Text

abbrev pub is_bytes : {N : Type 0} → Option (Content N) → Bool
is_bytes (some (bytes raw)) = true
is_bytes _ = false

-- `json.dumps` raises a TypeError on a dictionary that has bytes in it.
unfoldable pub has_bytes : {N : Type 0} → List (ModalityRef N) → Bool
unfolding any_of
has_bytes items = any_of (λ item. is_bytes item.content) items

module _ {N : Type 0} where
  unfoldable pub to_dict : MemoryEnvelope N → EnvelopeDict N
  to_dict m = record {
    id = m.id;
    created_at = some m.created_at;
    updated_at = some m.updated_at;
    scope = m.scope;
    memory_type = m.memory_type;
    modalities = m.modalities;
    tags = m.tags;
    entities = m.entities;
    relations = m.relations;
    importance = some m.importance;
    confidence = some m.confidence;
    sensitivity = some m.sensitivity;
    provenance = m.provenance;
    metadata = m.metadata;
    content_hash = m.content_hash;
  }

  abbrev pub material_of : MemoryEnvelope N → Material N
  material_of m = record {
    scope = m.scope;
    memory_type = m.memory_type;
    modalities = m.modalities;
    tags = m.tags;
    entities = m.entities;
    relations = m.relations;
    importance = m.importance;
    confidence = m.confidence;
    sensitivity = m.sensitivity;
    provenance = m.provenance;
    metadata = m.metadata;
  }

  unfoldable pub modality_names : MemoryEnvelope N → List Text
  unfolding sorted_set
  modality_names m = sorted_set (map (λ item. item.modality) m.modalities)

module _ {N : Type 0} (h : Host N) where
  unfoldable pub compute_content_hash : MemoryEnvelope N → Result Error Text
  unfolding has_bytes
  compute_content_hash m =
      if has_bytes m.modalities then raised type_error else done (h.content_digest (material_of m))

  unfoldable pub text_content : MemoryEnvelope N → Text
  unfolding searchable_text join filter_by is_empty
  text_content m =
      join (10 ∷ [])
        (filter_by (λ part. not (is_empty part)) (map (searchable_text h) m.modalities))

  -- `if not self.content_hash`
  unfoldable pub hashed : MemoryEnvelope N → Result Error (MemoryEnvelope N)
  unfolding compute_content_hash is_empty
  hashed m =
      if is_empty m.content_hash
      then and_then (compute_content_hash m) (λ hash. done (record m { content_hash = hash }))
      else done m

  -- `if not self.id`
  unfoldable pub named : MemoryEnvelope N → MemoryEnvelope N
  unfolding is_empty take
  named m =
      let material : IdMaterial N = record {
        content_hash = m.content_hash;
        created_at = m.created_at;
        scope = m.scope;
      } in
      if is_empty m.id then record m { id = codes "mem_" ++ take 24 (h.id_digest material) } else m

module _ (F : Floats) where
  open F use {Float, lt, of_ℕ, hundredths}

  unfoldable pub clamp_score : Float → Result Error Float
  clamp_score score =
      if lt score (of_ℕ 0) || lt (of_ℕ 1) score then raised value_error else done score

  -- `created_at or time.time()`, where `0.0` counts as missing
  unfoldable pub created_or : Float → Option Float → Float
  created_or now none = now
  created_or now (some t) = if lt t (of_ℕ 0) || lt (of_ℕ 0) t then t else now

  module _ (h : Host Float) where
    -- the fields as the constructor completes them before it hashes the memory
    abbrev pub completed :
        MemoryEnvelope Float → Option Float → Float → Float → MemoryEnvelope Float
    completed m updated_at importance confidence = record m {
      memory_type = if is_empty m.memory_type then codes "episodic" else m.memory_type;
      tags = sorted_set m.tags;
      entities = sorted_set m.entities;
      updated_at = or_value updated_at m.created_at;
      importance = importance;
      confidence = confidence;
    }

    -- `MemoryEnvelope.__post_init__` of the fields that the constructor is given; the second
    -- argument is the `updated_at` that it is given.
    unfoldable pub post_init :
        MemoryEnvelope Float → Option Float → Result Error (MemoryEnvelope Float)
    unfolding clamp_score hashed named sorted_set is_empty
    post_init m updated_at = and_then (clamp_score m.importance) λ importance.
        and_then (clamp_score m.confidence) λ confidence.
          and_then (hashed h (completed m updated_at importance confidence))
            λ sealed. done (named h sealed)

    -- the constructor's arguments that `from_dict` reads
    abbrev pub arguments :
        Float → EnvelopeDict Float → List (ModalityRef Float) → MemoryEnvelope Float
    arguments now d modalities =
        let created_at = created_or now d.created_at in
        record {
          id = d.id;
          scope = d.scope;
          memory_type = if is_empty d.memory_type then codes "episodic" else d.memory_type;
          modalities = modalities;
          created_at = created_at;
          updated_at = created_at;
          tags = d.tags;
          entities = d.entities;
          relations = d.relations;
          importance = or_value d.importance (hundredths 50);
          confidence = or_value d.confidence (of_ℕ 1);
          sensitivity = or_value d.sensitivity (codes "normal");
          provenance = d.provenance;
          metadata = d.metadata;
          content_hash = d.content_hash;
        }

    -- `now` is the time that the clock shows.
    unfoldable pub from_dict : Float → EnvelopeDict Float → Result Error (MemoryEnvelope Float)
    unfolding modalities_of post_init created_or is_empty
    from_dict now d =
        and_then (modalities_of h d.modalities)
          λ modalities. post_init (arguments now d modalities) d.updated_at
