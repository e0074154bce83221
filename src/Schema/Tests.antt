-- ===== src/Schema/Tests.antt =====
-- Memories built over a small host, and the theorems on them.
use agent_memory_living_memo.Prelude.{
  ℕ, some, [], ◌∷◌, Text_eq, codes, text_eq, ◌≡◌, refl, Distinct,
}
use agent_memory_living_memo.Prelude.Floats.{cents, IsUnit}
use agent_memory_living_memo.Prelude.Results.{done, raised}
use agent_memory_living_memo.Schema.{MemoryEnvelope}
use agent_memory_living_memo.Schema.Samples.{note, text_part, toy, toy-IsHost}
use agent_memory_living_memo.Schema.Host.Error.{value_error}
use agent_memory_living_memo.Schema.Modality.{modality_post_init}
use agent_memory_living_memo.Schema.Envelope.{
  EnvelopeDict, created_or, to_dict, from_dict, text_content,
}
use agent_memory_living_memo.Schema.Seal.{from_dict_again, from_dict-bounds}

-- a dictionary with a tag that stands twice, no id and no hash
abbrev draft : EnvelopeDict ℕ
draft = record (to_dict note) {
  id = [];
  tags = codes "b" ∷ codes "a" ∷ codes "b" ∷ [];
  content_hash = [];
}

abbrev sealed_note : MemoryEnvelope ℕ
sealed_note = record note {
  id = codes "mem_id";
  modalities = record text_part { sha256 = some (toy.sha256 (codes "use tabs")) } ∷ [];
  tags = codes "a" ∷ codes "b" ∷ [];
  content_hash = codes "hash";
}

from_draft : from_dict cents toy 7 draft ≡ done sealed_note
unfolding from_dict text_eq to_dict
from_draft = refl

too_important : from_dict cents toy 7 (record draft { importance = some 101 }) ≡ raised value_error
unfolding from_dict text_eq to_dict
too_important = refl

no_modality :
    modality_post_init toy (record text_part { modality = codes "  " }) ≡ raised value_error
unfolding modality_post_init
no_modality = refl

text_of_note : text_content toy note ≡ codes "use tabs"
unfolding text_content text_eq
text_of_note = refl

from_dict_again_example : from_dict cents toy 9 (to_dict sealed_note) ≡ done sealed_note
unfolding created_or
from_dict_again_example = from_dict_again cents toy-IsHost 7 9 draft from_draft refl

from_dict-bounds_example :
    IsUnit cents sealed_note.importance
    × IsUnit cents sealed_note.confidence
    × Distinct sealed_note.tags
    × Distinct sealed_note.entities
from_dict-bounds_example = from_dict-bounds cents toy-IsHost 7 draft from_draft
