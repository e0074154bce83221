-- ===== src/Schema.antt =====
-- schema.py: the memory envelope and its modalities. A dictionary is the list of its items.
pub mod Values
pub mod Samples
pub mod Host
pub mod Modality
pub mod Envelope
pub mod Create
pub mod Seal
mod Tests
use agent_memory_living_memo.Prelude.{ℕ, Option, List, Text}
use agent_memory_living_memo.Schema.Values.{Json}

-- `dict[str, Any]`
abbrev pub Dict : Type 0 → Type 0
Dict N = List (Text × Json N)

-- what `ModalityRef.content` holds when it is not None
pub data Content (N : Type 0) : Type 0 where
  str : Text → Content N
  bytes : List ℕ → Content N
  structured : Json N → Content N

pub record ModalityRef (N : Type 0) : Type 0 where
  pub modality : Text
  pub content : Option (Content N)
  pub uri : Option Text
  pub mime_type : Option Text
  pub sha256 : Option Text
  pub size_bytes : Option ℕ
  pub metadata : Dict N

-- An item of `relations`, by the keys that the engine reads.
pub record RelationItem (N : Type 0) : Type 0 where
  pub subject : Text
  pub predicate : Text
  pub object : Text
  pub graph_name : Option Text
  pub valid_from : Option N
  pub valid_to : Option N
  pub confidence : Option N

pub record MemoryEnvelope (N : Type 0) : Type 0 where
  pub id : Text
  pub scope : Dict N
  pub memory_type : Text
  pub modalities : List (ModalityRef N)
  pub created_at : N
  pub updated_at : N
  pub tags : List Text
  pub entities : List Text
  pub relations : List (RelationItem N)
  pub importance : N
  pub confidence : N
  pub sensitivity : Text
  pub provenance : Dict N
  pub metadata : Dict N
  pub content_hash : Text

-- The dictionary that `compute_content_hash` hashes: all but the id and the two times.
pub record Material (N : Type 0) : Type 0 where
  pub scope : Dict N
  pub memory_type : Text
  pub modalities : List (ModalityRef N)
  pub tags : List Text
  pub entities : List Text
  pub relations : List (RelationItem N)
  pub importance : N
  pub confidence : N
  pub sensitivity : Text
  pub provenance : Dict N
  pub metadata : Dict N

-- The dictionary that an id is the hash of.
pub record IdMaterial (N : Type 0) : Type 0 where
  pub content_hash : Text
  pub created_at : N
  pub scope : Dict N
