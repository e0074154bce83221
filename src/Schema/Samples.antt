-- ===== src/Schema/Samples.antt =====
-- Memories for tests and examples, over fixed-point numbers.
use agent_memory_living_memo.Prelude.{
  ℕ, none, some, [], ◌∷◌, codes, leb, ◌&&◌, replicate, is_empty, refl,
}
use agent_memory_living_memo.Prelude.Strings.Strip.{strip-strip}
use agent_memory_living_memo.Schema.Host.{Host, IsHost}
use agent_memory_living_memo.Schema.{ModalityRef, Content, RelationItem, MemoryEnvelope}
use agent_memory_living_memo.Schema.Values.{text}

abbrev pub text_part : ModalityRef ℕ
text_part = record {
  modality = codes "text";
  content = some (Content.str (codes "use tabs"));
  uri = none;
  mime_type = some (codes "text/plain");
  sha256 = none;
  size_bytes = some 8;
  metadata = [];
}

abbrev pub relation : RelationItem ℕ
relation = record {
  subject = codes "Project";
  predicate = codes "uses";
  object = codes "tabs";
  graph_name = none;
  valid_from = some 10;
  valid_to = none;
  confidence = none;
}

abbrev pub note : MemoryEnvelope ℕ
note = record {
  id = codes "mem_1";
  scope = (codes "project", text (codes "p")) ∷ [];
  memory_type = codes "decision";
  modalities = text_part ∷ [];
  created_at = 100;
  updated_at = 100;
  tags = codes "style" ∷ [];
  entities = [];
  relations = relation ∷ [];
  importance = 50;
  confidence = 100;
  sensitivity = codes "normal";
  provenance = [];
  metadata = [];
  content_hash = codes "h1";
}

-- A host whose texts are their own bytes, and whose digests are all the same.
abbrev pub toy : Host ℕ
toy = record {
  lower = λ s. s;
  is_word = λ c. leb 97 c && leb c 122;
  encode = λ s. s;
  decode = λ raw. some raw;
  dumps = λ v. codes "{}";
  loads = λ s. none;
  str_number = λ n. n ∷ [];
  sha256 = λ raw. replicate 64 97;
  content_digest = λ m. codes "hash";
  id_digest = λ m. codes "id";
}

pub toy-IsHost : IsHost toy
unfolding is_empty
toy-IsHost = record {
  lower_lower = λ s. refl;
  strip-lower = strip-strip;
  digest_filled = λ m. refl;
  decode-encode = λ s. refl;
}
