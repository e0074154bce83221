-- ===== src/Store/Blobs.antt =====
-- The files of large contents: a content above the threshold goes to the file that its digest
-- names, and a reference `blob://…` stands for it in the memory.
use agent_memory_living_memo.Prelude.{
  ℕ, Bool, false, ◌&&◌, ◌||◌, Option, none, some, List, [], ◌∷◌, ◌++◌, Text, Text_eq, codes, ◌==◌,
  all_of, take, drop, length, if◌then◌else◌, leb, nat_eq,
}
use agent_memory_living_memo.Prelude.Dict
use agent_memory_living_memo.Prelude.Results.{Result, raised, done, and_then}
use agent_memory_living_memo.Prelude.Strings.{after_prefix}
use agent_memory_living_memo.Schema.{Content, ModalityRef}
use agent_memory_living_memo.Schema.Content.{str, bytes, structured}
use agent_memory_living_memo.Schema.Host.{Error, Host}
use agent_memory_living_memo.Schema.Host.Error.{value_error, type_error, file_not_found}
use agent_memory_living_memo.Schema.Modality.{content_bytes, modality_post_init}
use agent_memory_living_memo.Schema.Values.{Json}

-- the contents of the files, by the last part of their path
abbrev pub Files : Type 0
Files = List (Text × List ℕ)

abbrev pub is_hex : ℕ → Bool
is_hex c = (leb 48 c && leb c 57) || (leb 97 c && leb c 102)

-- `_is_sha256_hex`: in `^[0-9a-f]{64}$` the dollar sign also matches before a last line feed
unfoldable pub is_sha256_hex : Text → Bool
unfolding all_of take drop
is_sha256_hex s =
    nat_eq (length (take 64 s)) 64
    && all_of is_hex (take 64 s)
    && ((drop 64 s == []) || (drop 64 s == 10 ∷ []))

-- `_blob_path`, whose result is the name of the file and of its directory
unfoldable pub blob_path : Text → Result Error (Text × Text)
unfolding is_sha256_hex take
blob_path sha = if is_sha256_hex sha then done (take 2 sha, sha) else raised value_error

-- `if not path.exists(): path.write_bytes(data)`
unfoldable pub write_new : Text → List ℕ → Files → Files
unfolding Dict.get Dict.put
write_new sha raw files = elim (Dict.get sha files) [
  | none ↦ Dict.put sha raw files
  | some present ↦ files
]

-- `item.uri and item.uri.startswith("blob://")`, with what follows the prefix
unfoldable pub blob_reference : Option Text → Option Text
unfolding after_prefix
blob_reference none = none
blob_reference (some uri) = after_prefix (codes "blob://") uri

module _ {N : Type 0} where
  -- bytes are marked as JSON too
  unfoldable pub blob_format : Content N → Text
  blob_format (str s) = codes "text"
  blob_format (bytes raw) = codes "json"
  blob_format (structured v) = codes "json"

  abbrev pub blob_item : ModalityRef N → Content N → Text → List ℕ → ModalityRef N
  blob_item item content sha raw = record item {
    content = none;
    uri = some (codes "blob://" ++ sha);
    sha256 = some sha;
    size_bytes = some (length raw);
    metadata = Dict.put (codes "blob_format") (Json.text (blob_format content)) item.metadata;
  }

  abbrev pub marked_json : Option (Json N) → Bool
  marked_json (some (Json.text s)) = s == codes "json"
  marked_json _ = false

module _ {N : Type 0} (h : Host N) where
  -- `stable_json(content)`, which raises a TypeError on bytes
  abbrev pub json_of_content : Content N → Result Error Text
  json_of_content (str s) = done (h.dumps (Json.text s))
  json_of_content (bytes raw) = raised type_error
  json_of_content (structured v) = done (h.dumps v)

  -- `item.sha256 or stable_json(item.content)`
  abbrev pub claimed_sha : Option Text → Content N → Result Error Text
  claimed_sha none content = json_of_content content
  claimed_sha (some []) content = json_of_content content
  claimed_sha (some (c ∷ s)) content = done (c ∷ s)

  -- the digest that names the file: the claimed one if it has the form of one, or that of the data
  abbrev pub file_sha : Text → List ℕ → Text
  file_sha claimed raw = if is_sha256_hex claimed then claimed else h.sha256 raw

  -- the file and the reference that stand for a content, once its digest is known
  unfoldable pub externalize_as :
      ModalityRef N → Content N → List ℕ → Files → Text → Files × Result Error (ModalityRef N)
  unfolding blob_path write_new modality_post_init blob_format Dict.put
  externalize_as item content raw files sha = elim (blob_path sha) [
    | raised e ↦ (files, raised e)
    | done path ↦ (write_new sha raw files, modality_post_init h (blob_item item content sha raw))
  ]

  -- an item whose content is above the threshold
  unfoldable pub externalize_large :
      ModalityRef N → Content N → Files → Files × Result Error (ModalityRef N)
  unfolding is_sha256_hex externalize_as content_bytes
  externalize_large item content files = elim (claimed_sha item.sha256 content) [
    | raised e ↦ (files, raised e)
    | done claimed ↦
        let raw = content_bytes h content in
        externalize_as item content raw files (file_sha claimed raw)
  ]

  unfoldable pub externalize_content :
      ℕ → ModalityRef N → Option (Content N) → Files → Files × Result Error (ModalityRef N)
  unfolding externalize_large content_bytes
  externalize_content blob_threshold item none files = (files, done item)
  externalize_content blob_threshold item (some content) files =
      if leb (length (content_bytes h content)) blob_threshold
      then (files, done item)
      else externalize_large item content files

  -- what a turn of the loop and the turns after it give
  abbrev pub after_item :
      Files × Result Error (ModalityRef N)
      → Files × Result Error (List (ModalityRef N))
      → Files × Result Error (List (ModalityRef N))
  after_item (files, raised e) rest = (files, raised e)
  after_item (files, done first) (files', others) =
      (files', and_then others (λ items. done (first ∷ items)))

  -- the loop of `_externalize_large_payloads`; an error leaves the files that were written by then
  unfoldable pub externalize_items :
      ℕ → List (ModalityRef N) → Files → Files × Result Error (List (ModalityRef N))
  unfolding externalize_content
  externalize_items blob_threshold [] files = (files, done [])
  externalize_items blob_threshold (item ∷ items) files =
      let made : Files × Result Error (ModalityRef N) =
        externalize_content blob_threshold item item.content files in
      after_item made (externalize_items blob_threshold items made.0)

  abbrev pub decoded_text : List ℕ → Result Error Text
  decoded_text raw = elim (h.decode raw) [ none ↦ raised value_error | some s ↦ done s ]

  abbrev pub json_content : Text → Result Error (Content N)
  json_content s = elim (h.loads s) [ none ↦ raised value_error | some v ↦ done (structured v) ]

  -- the content that the bytes of a file stand for
  unfoldable pub decoded_content : Bool → List ℕ → Result Error (Content N)
  decoded_content json raw =
      and_then (decoded_text raw) λ s. if json then json_content s else done (str s)

  abbrev pub read_bytes : Text → Files → Result Error (List ℕ)
  read_bytes sha files = elim (Dict.get sha files) [
    | none ↦ raised file_not_found
    | some raw ↦ done raw
  ]

  abbrev pub restored_item : ModalityRef N → Content N → ModalityRef N
  restored_item item content = record item {
    content = some content;
    uri = none;
    metadata = Dict.remove (codes "blob_format") item.metadata;
  }

  unfoldable pub resolve_reference : Files → ModalityRef N → Text → Result Error (ModalityRef N)
  unfolding blob_path decoded_content modality_post_init Dict.get Dict.remove
  resolve_reference files item sha = and_then (blob_path sha) λ path.
      and_then (read_bytes sha files) λ raw.
        and_then (decoded_content (marked_json (Dict.get (codes "blob_format") item.metadata)) raw)
          λ content. modality_post_init h (restored_item item content)

  unfoldable pub resolve_item : Files → ModalityRef N → Result Error (ModalityRef N)
  unfolding blob_reference resolve_reference
  resolve_item files item = elim (blob_reference item.uri) [
    | none ↦ done item
    | some sha ↦ resolve_reference files item sha
  ]

  -- the loop of `_resolve_blobs`
  unfoldable pub resolve_items : Files → List (ModalityRef N) → Result Error (List (ModalityRef N))
  unfolding resolve_item
  resolve_items files [] = done []
  resolve_items files (item ∷ items) =
      and_then (resolve_item files item)
        λ first. and_then (resolve_items files items) λ rest. done (first ∷ rest)
