-- ===== src/Schema/Create.antt =====
-- The class methods of `MemoryEnvelope` that build a memory from one or several modalities.
use agent_memory_living_memo.Prelude.{
  Option, none, some, List, [], ◌∷◌, Text, codes, is_empty, if◌then◌else◌,
}
use agent_memory_living_memo.Prelude.Floats.{Floats}
use agent_memory_living_memo.Prelude.Results.{Result, raised, and_then}
use agent_memory_living_memo.Schema.{Dict, Content, ModalityRef, RelationItem, MemoryEnvelope}
use agent_memory_living_memo.Schema.Envelope.{post_init}
use agent_memory_living_memo.Schema.Host.{Error, Host}
use agent_memory_living_memo.Schema.Host.Error.{value_error}
use agent_memory_living_memo.Schema.Modality.{modality_post_init, modalities_of, or_value}
use agent_memory_living_memo.Schema.Values.{Json}

-- The keyword arguments that the class methods share; their defaults are the caller's.
pub record Options (N : Type 0) : Type 0 where
  pub scope : Dict N
  pub memory_type : Text
  pub tags : List Text
  pub entities : List Text
  pub relations : List (RelationItem N)
  pub importance : N
  pub confidence : N
  pub sensitivity : Text
  pub provenance : Dict N
  pub created_at : Option N
  pub metadata : Dict N

module _ {N : Type 0} where
  -- the constructor's call at the end of each method
  abbrev pub envelope_arguments : N → Options N → List (ModalityRef N) → MemoryEnvelope N
  envelope_arguments now o modalities = record {
    id = [];
    scope = o.scope;
    memory_type = o.memory_type;
    modalities = modalities;
    created_at = or_value o.created_at now;
    updated_at = or_value o.created_at now;
    tags = o.tags;
    entities = o.entities;
    relations = o.relations;
    importance = o.importance;
    confidence = o.confidence;
    sensitivity = o.sensitivity;
    provenance = o.provenance;
    metadata = o.metadata;
    content_hash = [];
  }

  abbrev pub part_of : Text → Option (Content N) → Option Text → Text → Dict N → ModalityRef N
  part_of modality content uri mime_type metadata = record {
    modality = modality;
    content = content;
    uri = uri;
    mime_type = some mime_type;
    sha256 = none;
    size_bytes = none;
    metadata = metadata;
  }

module _ (F : Floats) (h : Host F.Float) (now : F.Float) where
  open F use {Float}

  abbrev pub of_part : Options Float → ModalityRef Float → Result Error (MemoryEnvelope Float)
  of_part o part =
      and_then (modality_post_init h part)
        λ item. post_init F h (envelope_arguments now o (item ∷ [])) none

  unfoldable pub text : Text → Options Float → Result Error (MemoryEnvelope Float)
  unfolding modality_post_init post_init
  text content o =
      of_part o (part_of (codes "text") (some (Content.str content)) none (codes "text/plain") [])

  unfoldable pub file_ref : Text → Text → Text → Options Float → Result Error (MemoryEnvelope Float)
  unfolding modality_post_init post_init
  file_ref uri mime_type modality o =
      of_part o (part_of modality none (some uri) mime_type o.metadata)

  unfoldable pub structured : Json Float → Options Float → Result Error (MemoryEnvelope Float)
  unfolding modality_post_init post_init
  structured content o = of_part o (
      part_of (codes "structured") (some (Content.structured content)) none
        (codes "application/json") [])

  -- The modalities are dictionaries, from which `from_dict` builds them.
  unfoldable pub multimodal :
      List (ModalityRef Float) → Options Float → Result Error (MemoryEnvelope Float)
  unfolding modalities_of post_init is_empty
  multimodal modalities o =
      if is_empty modalities
      then raised value_error
      else and_then (modalities_of h modalities)
          (λ items. post_init F h (envelope_arguments now o items) none)
