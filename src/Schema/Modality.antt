-- ===== src/Schema/Modality.antt =====
-- `ModalityRef`: what its constructor completes, and the text that it is found by.
use agent_memory_living_memo.Prelude.{
  ℕ, Bool, true, false, not, Option, none, some, List, [], ◌∷◌, Text, Text_eq, codes, ◌==◌,
  filter_by, is_empty, length, if◌then◌else◌,
}
use agent_memory_living_memo.Prelude.Dict
use agent_memory_living_memo.Prelude.Results.{Result, raised, done, and_then}
use agent_memory_living_memo.Prelude.Strings.{strip, join}
use agent_memory_living_memo.Schema.{Dict, Content, ModalityRef}
use agent_memory_living_memo.Schema.Host.{Error, Host}
use agent_memory_living_memo.Schema.Values.{Json, null, bool, num, text, list, dict}
use agent_memory_living_memo.Schema.Content.{str, bytes, structured}
use agent_memory_living_memo.Schema.Host.Error.{value_error}

-- TEXT_BRIDGE_METADATA_KEYS
abbrev pub text_bridge_metadata_keys : List Text
text_bridge_metadata_keys =
    codes "text"
    ∷ codes "derived_text"
    ∷ codes "caption"
    ∷ codes "alt_text"
    ∷ codes "ocr_text"
    ∷ codes "detected_text"
    ∷ codes "transcript"
    ∷ codes "description"
    ∷ codes "title"
    ∷ codes "labels"
    ∷ []

abbrev pub text_or_structured : Text → Bool
text_or_structured modality =
    if modality == codes "text" then true else modality == codes "structured"

abbrev pub or_value : {A : Type 0} → Option A → A → A
or_value none a = a
or_value (some b) a = b

abbrev pub or_blank : Option Text → Text
or_blank none = []
or_blank (some s) = s

module _ {N : Type 0} (h : Host N) where
  unfoldable pub content_bytes : Content N → List ℕ
  content_bytes (str s) = h.encode s
  content_bytes (bytes raw) = raw
  content_bytes (structured v) = h.encode (h.dumps v)

  abbrev pub with_digest : ModalityRef N → List ℕ → ModalityRef N
  with_digest item raw = record item {
    sha256 = some (or_value item.sha256 (h.sha256 raw));
    size_bytes = some (or_value item.size_bytes (length raw));
  }

  -- the last branch of `ModalityRef.__post_init__`
  unfoldable pub digested : ModalityRef N → Option (Content N) → ModalityRef N
  unfolding content_bytes
  digested item none = item
  digested item (some content) = with_digest item (content_bytes content)

  -- `ModalityRef.__post_init__` on the fields that the constructor is given, which are also those
  -- that `from_dict` reads from `to_dict`
  unfoldable pub modality_post_init : ModalityRef N → Result Error (ModalityRef N)
  unfolding digested strip is_empty
  modality_post_init item =
      let modality = h.lower (strip item.modality) in
      if is_empty modality
      then raised value_error
      else done (digested (record item { modality = modality }) item.content)

  -- `[ModalityRef.from_dict(item) for item in items]`
  unfoldable pub modalities_of : List (ModalityRef N) → Result Error (List (ModalityRef N))
  unfolding modality_post_init
  modalities_of [] = done []
  modalities_of (item ∷ items) =
      and_then (modality_post_init item)
        λ first. and_then (modalities_of items) λ rest. done (first ∷ rest)

  -- the part that a value of the metadata gives; none and an empty text give no part
  unfoldable pub bridge_text : Json N → Text
  bridge_text null = []
  bridge_text (bool true) = codes "True"
  bridge_text (bool false) = codes "False"
  bridge_text (num n) = h.str_number n
  bridge_text (text s) = s
  bridge_text (list vs) = h.dumps (list vs)
  bridge_text (dict fs) = h.dumps (dict fs)

  unfoldable pub bridge_texts : Dict N → List Text → List Text
  unfolding bridge_text Dict.get
  bridge_texts metadata [] = []
  bridge_texts metadata (key ∷ keys) =
      (elim (Dict.get key metadata) [ none ↦ [] | some v ↦ bridge_text v ])
      ∷ bridge_texts metadata keys

  unfoldable pub content_text : Option (Content N) → Text
  content_text none = []
  content_text (some (str s)) = s
  content_text (some (bytes raw)) = []
  content_text (some (structured v)) = h.dumps v

  unfoldable pub searchable_text : ModalityRef N → Text
  unfolding content_text bridge_texts join filter_by is_empty
  searchable_text item =
      let plain = text_or_structured item.modality in
      let parts : List Text =
        content_text item.content
        ∷ or_blank item.uri
        ∷ (if plain then [] else item.modality)
        ∷ (if plain then [] else or_blank item.mime_type)
        ∷ bridge_texts item.metadata text_bridge_metadata_keys in
      join (10 ∷ []) (filter_by (λ part. not (is_empty part)) parts)
