-- ===== src/Store/Restore.antt =====
-- What is moved to a file comes back: the references that stand for large contents resolve to the
-- items that they were made from.
use agent_memory_living_memo.Prelude.{
  ℕ, true, false, Option, none, some, List, [], ◌∷◌, Text, Text_eq, codes, ◌==◌, All, take, length,
  leb, is_empty, Bool-cases, Option-cases, ◌≡◌, refl, ap, sym, ◌∙◌, inl, inr, arith, beq_self,
  text_eq,
}
use agent_memory_living_memo.Prelude.Dict
use agent_memory_living_memo.Prelude.Dict.{All-get, All-put, get-put, remove-put}
use agent_memory_living_memo.Prelude.Results.{Result, done, and_then, guard-done, done_injective}
use agent_memory_living_memo.Prelude.Strings.{strip, after_prefix}
use agent_memory_living_memo.Schema.{Dict, Content, ModalityRef}
use agent_memory_living_memo.Schema.Content.{str, bytes, structured}
use agent_memory_living_memo.Schema.Envelope.{is_bytes}
use agent_memory_living_memo.Schema.Host.{Error, Host, IsHost}
use agent_memory_living_memo.Schema.Host.Error.{value_error}
use agent_memory_living_memo.Schema.Modality.{content_bytes, digested, modality_post_init}
use agent_memory_living_memo.Schema.Values.{Json}
use agent_memory_living_memo.Store.Blobs.{
  Files, is_sha256_hex, blob_path, write_new, blob_reference, blob_format, blob_item, marked_json,
  claimed_sha, file_sha, externalize_as, externalize_large, decoded_content, decoded_text,
  json_content, read_bytes, restored_item, resolve_reference, resolve_item,
}
use agent_memory_living_memo.Store.Safety.{sha256_hex_filled}

-- What the digests of the contents at hand are: they have the form of a SHA-256 digest, and no two
-- of the contents have the same.
pub record IsDigest {N : Type 0} (h : Host N) (Known : List ℕ → Type 0) : Type 0 where
  pub form : (raw : List ℕ) → Known raw → is_sha256_hex (h.sha256 raw) ≡ true
  pub unique : (a b : List ℕ) → Known a → Known b → h.sha256 a ≡ h.sha256 b → a ≡ b

module _ {N : Type 0} (h : Host N) where
  -- the content is read back from its bytes: a text is, bytes are not, and JSON is if the value is
  abbrev pub IsReadable : Content N → Type 0
  IsReadable (str s) = Unit
  IsReadable (bytes raw) = ⊥
  IsReadable (structured v) = h.loads (h.dumps v) ≡ some v

  -- an item with a content of its own, whose digest and size are those of the content
  pub record IsOwn (Known : List ℕ → Type 0) (item : ModalityRef N) (content : Content N)
      : Type 0 where
    pub readable : IsReadable content
    pub known : Known (content_bytes h content)
    pub uri : item.uri ≡ none
    pub sha256 : item.sha256 ≡ some (h.sha256 (content_bytes h content))
    pub size_bytes : item.size_bytes ≡ some (length (content_bytes h content))
    pub metadata : Dict.get (codes "blob_format") item.metadata ≡ none

  -- an item that is complete, refers to no file and holds no bytes, and is its own if it is large
  pub record IsPlain (Known : List ℕ → Type 0) (limit : ℕ) (item : ModalityRef N) : Type 0 where
    pub complete : modality_post_init h item ≡ done item
    pub reference : blob_reference item.uri ≡ none
    pub no_bytes : is_bytes item.content ≡ false
    pub large :
        (content : Content N)
        → item.content ≡ some content
        → leb (length (content_bytes h content)) limit ≡ false
        → IsOwn Known item content

  -- every file has the name of its content's digest
  abbrev pub IsFaithful : (List ℕ → Type 0) → Files → Type 0
  IsFaithful Known files = All (λ file. (h.sha256 file.1 ≡ file.0) × Known file.1) files

-- no file of the first is missing or different in the second
abbrev pub Extends : Files → Files → Type 0
Extends files later =
    (sha : Text) (raw : List ℕ) → Dict.get sha files ≡ some raw → Dict.get sha later ≡ some raw

pub write_new-Extends :
    (files : Files) (sha : Text) (raw : List ℕ) → Extends files (write_new sha raw files)
unfolding write_new
write_new-Extends files sha raw asked found e = elim (Option-cases (Dict.get sha files)) [
  | inl absent ↦
      rw (absent, write_new)
        (get-put sha asked raw files ∙ ground (arith, e, absent, Text_eq.same_iff sha asked))
  | inr (present, e') ↦ rw (e', write_new) e
]

-- a record with fields replaced by equal ones
same_item :
    {N : Type 0} (item : ModalityRef N) {c : Option (Content N)} {u : Option Text} {d : Option Text}
    {n : Option ℕ} {m : Dict N}
    → item.content ≡ c
    → item.uri ≡ u
    → item.sha256 ≡ d
    → item.size_bytes ≡ n
    → m ≡ item.metadata
    → record item { content = c; uri = u; sha256 = d; size_bytes = n; metadata = m } ≡ item
same_item item p q r s t = rw (← p, ← q, ← r, ← s, t) refl

module _ {Known : List ℕ → Type 0} {N : Type 0} {h : Host N} (d : IsDigest h Known) where
  -- what stands under the digest of a known content is that content
  faithful-get :
      (files : Files) (raw present : List ℕ)
      → Known raw
      → IsFaithful h Known files
      → Dict.get (h.sha256 raw) files ≡ some present
      → present ≡ raw
  unfolding Dict.get
  faithful-get [] raw present k f e = absurd (ground (arith, e))
  faithful-get ((sha, other) ∷ files) raw present k f e = elim (Bool-cases (sha == h.sha256 raw)) [
    | inl asked ↦
        let same : other ≡ present = ground (arith, rw (asked, Dict.get) at e) in
        sym same
        ∙ d.unique other raw f.0.1 k (f.0.0 ∙ (Text_eq.same_iff sha (h.sha256 raw)).0 asked)
    | inr skipped ↦ faithful-get files raw present k f.1 (rw (skipped, Dict.get) at e)
  ]

  put-IsFaithful :
      (files : Files) (raw : List ℕ)
      → Known raw
      → IsFaithful h Known files
      → IsFaithful h Known (Dict.put (h.sha256 raw) raw files)
  unfolding Dict.put
  put-IsFaithful [] raw k f = ((refl, k), tt)
  put-IsFaithful ((sha, other) ∷ files) raw k f = elim (Bool-cases (sha == h.sha256 raw)) [
    | inl asked ↦
        rw (asked, Dict.put) ((sym ((Text_eq.same_iff sha (h.sha256 raw)).0 asked), k), f.1)
    | inr skipped ↦ rw (skipped, Dict.put) (f.0, put-IsFaithful files raw k f.1)
  ]

  -- the file that `write_new` leaves under the digest of a known content is that content
  pub write_new-get :
      (files : Files) (raw : List ℕ)
      → Known raw
      → IsFaithful h Known files
      → Dict.get (h.sha256 raw) (write_new (h.sha256 raw) raw files) ≡ some raw
  unfolding write_new
  write_new-get files raw k f = elim (Option-cases (Dict.get (h.sha256 raw) files)) [
    | inl absent ↦
        rw (absent, write_new)
          (get-put (h.sha256 raw) (h.sha256 raw) raw files ∙ rw (beq_self (h.sha256 raw)) refl)
    | inr (present, e) ↦ rw (e, write_new) (e ∙ ap some (faithful-get files raw present k f e))
  ]

  pub write_new-IsFaithful :
      (files : Files) (raw : List ℕ)
      → Known raw
      → IsFaithful h Known files
      → IsFaithful h Known (write_new (h.sha256 raw) raw files)
  unfolding write_new
  write_new-IsFaithful files raw k f = elim (Option-cases (Dict.get (h.sha256 raw) files)) [
    | inl absent ↦ rw (absent, write_new) (put-IsFaithful files raw k f)
    | inr (present, e') ↦ rw (e', write_new) f
  ]

  claimed_own :
      (content : Content N) (sha : Text)
      → is_empty sha ≡ false
      → claimed_sha h (some sha) content ≡ done sha
  unfolding is_empty
  claimed_own content [] e = cc
  claimed_own content (c ∷ s) e = refl

  digested-modality :
      (item : ModalityRef N) (content : Option (Content N))
      → (digested h item content).modality ≡ item.modality
  unfolding digested
  digested-modality item none = refl
  digested-modality item (some content) = refl

  -- a complete item has its name in normal form
  complete_name :
      (item : ModalityRef N)
      → modality_post_init h item ≡ done item
      → (h.lower (strip item.modality) ≡ item.modality)
        × (is_empty (h.lower (strip item.modality)) ≡ false)
  unfolding modality_post_init
  complete_name item e =
      let name = h.lower (strip item.modality) in
      let made : ModalityRef N = digested h (record item { modality = name }) item.content in
      let (filled, same) = guard-done (is_empty name) value_error (done made) e in
      (
        sym (digested-modality (record item { modality = name }) item.content)
            ∙ ap (λ (x : ModalityRef N). x.modality) (done_injective same),
        filled,
      )

  -- the reference that stands for a content is complete
  pub blob_item_complete :
      (item : ModalityRef N) (content : Content N) (sha : Text) (raw : List ℕ)
      → modality_post_init h item ≡ done item
      → modality_post_init h (blob_item item content sha raw)
        ≡ done (blob_item item content sha raw)
  unfolding modality_post_init digested
  blob_item_complete item content sha raw e =
      let (name, filled) = complete_name item e in rw (filled, name) refl

  read_back : (i : IsHost h) (s : Text) → decoded_text h (h.encode s) ≡ done s
  read_back i s = rw (decoded_text, i.decode-encode s) refl

  decoded_own :
      (i : IsHost h) (content : Content N)
      → IsReadable h content
      → decoded_content h
          (marked_json {N = N} (some (Json.text (blob_format content))))
          (content_bytes h content)
        ≡ done content
  unfolding decoded_content blob_format content_bytes text_eq
  decoded_own i (str s) r =
      ap (λ (t : Result Error Text). and_then t (λ s. done (str s))) (read_back i s)
  decoded_own i (bytes raw) r = absurd r
  decoded_own i (structured v) r =
      ap (λ (t : Result Error Text). and_then t (json_content h)) (read_back i (h.dumps v))
      ∙ rw (json_content, r) refl

  -- the reference that stands for an own content
  abbrev pub own_reference : ModalityRef N → Content N → ModalityRef N
  own_reference item content =
      blob_item item content (h.sha256 (content_bytes h content)) (content_bytes h content)

  blob_path_hex : (sha : Text) → is_sha256_hex sha ≡ true → blob_path sha ≡ done (take 2 sha, sha)
  unfolding blob_path
  blob_path_hex sha e = rw e refl

  externalize_as_lem :
      (item : ModalityRef N) (content : Content N) (raw : List ℕ) (files : Files) (sha : Text)
      → is_sha256_hex sha ≡ true
      → modality_post_init h item ≡ done item
      → externalize_as h item content raw files sha
        ≡ (write_new sha raw files, done (blob_item item content sha raw))
  unfolding externalize_as
  externalize_as_lem item content raw files sha hex e =
      rw (blob_path_hex sha hex, externalize_as, blob_item_complete item content sha raw e) refl

  pub externalize_own :
      (item : ModalityRef N) (content : Content N) (files : Files)
      → modality_post_init h item ≡ done item
      → IsOwn h Known item content
      → externalize_large h item content files ≡ (
        write_new (h.sha256 (content_bytes h content)) (content_bytes h content) files,
        done (own_reference item content),
      )
  unfolding externalize_large
  externalize_own item content files e own =
      let raw = content_bytes h content in
      let sha = h.sha256 raw in
      let hex = d.form raw own.known in
      let named : file_sha h sha raw ≡ sha = rw hex refl in
      let claimed : claimed_sha h item.sha256 content ≡ done sha =
        ap (λ s. claimed_sha h s content) own.sha256
        ∙ claimed_own content sha (sha256_hex_filled sha hex) in
      rw (claimed, externalize_large)
        (ap (externalize_as h item content raw files) named
          ∙ externalize_as_lem item content raw files sha hex e)

  resolve_reference_lem :
      (later : Files) (item : ModalityRef N) (sha : Text) (raw : List ℕ) (content : Content N)
      {made : ModalityRef N}
      → is_sha256_hex sha ≡ true
      → Dict.get sha later ≡ some raw
      → decoded_content h (marked_json (Dict.get (codes "blob_format") item.metadata)) raw
        ≡ done content
      → modality_post_init h (restored_item h item content) ≡ done made
      → resolve_reference h later item sha ≡ done made
  unfolding resolve_reference
  resolve_reference_lem later item sha raw content hex found decoded e =
      let read : read_bytes h sha later ≡ done raw = rw (read_bytes, found) refl in
      rw (blob_path_hex sha hex, resolve_reference, read, decoded) e

  pub resolve_own :
      (i : IsHost h) (item : ModalityRef N) (content : Content N) (later : Files)
      → modality_post_init h item ≡ done item
      → item.content ≡ some content
      → IsOwn h Known item content
      → Dict.get (h.sha256 (content_bytes h content)) later ≡ some (content_bytes h content)
      → resolve_item h later (own_reference item content) ≡ done item
  unfolding resolve_item blob_reference after_prefix
  resolve_own i item content later e c own found =
      let raw = content_bytes h content in
      let key = codes "blob_format" in
      let mark = Json.text (blob_format content) in
      let restored : restored_item h (own_reference item content) content ≡ item =
        same_item item c own.uri own.sha256 own.size_bytes
          (remove-put key mark item.metadata own.metadata) in
      let marked : Dict.get key (Dict.put key mark item.metadata) ≡ some mark =
        get-put key key mark item.metadata ∙ rw (beq_self key) refl in
      resolve_reference_lem later (own_reference item content) (h.sha256 raw) raw content
        (d.form raw own.known) found
        (ap (λ m. decoded_content h (marked_json m) raw) marked
          ∙ decoded_own i content own.readable)
        (ap (modality_post_init h) restored ∙ e)
