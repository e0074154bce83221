-- ===== src/Store/Loops.antt =====
-- The loop over a memory's modalities: it loses no file, and its references resolve, also in the
-- files that are written later, to the items that it was given.
use agent_memory_living_memo.Prelude.{
  ℕ, false, Option, none, some, List, [], ◌∷◌, Text_eq, All, any_of, length, leb, Bool-cases, ◌≡◌,
  refl, ap, ◌∙◌, inl, inr,
}
use agent_memory_living_memo.Prelude.Results.{Result, done}
use agent_memory_living_memo.Schema.{Content, ModalityRef}
use agent_memory_living_memo.Schema.Envelope.{is_bytes, has_bytes}
use agent_memory_living_memo.Schema.Host.{Error, Host, IsHost}
use agent_memory_living_memo.Schema.Modality.{content_bytes, modality_post_init, modalities_of}
use agent_memory_living_memo.Store.Blobs.{
  Files, write_new, after_item, externalize_content, externalize_items, resolve_item, resolve_items,
}
use agent_memory_living_memo.Store.Restore.{
  IsDigest, IsPlain, IsOwn, IsFaithful, Extends, write_new-get, write_new-Extends,
  write_new-IsFaithful, own_reference, blob_item_complete, externalize_own, resolve_own,
}

-- what one turn of the loop has done
pub record IsTurn {N : Type 0} (h : Host N) (limit : ℕ) (Known : List ℕ → Type 0)
    (item ref : ModalityRef N) (files files' : Files) : Type 0 where
  pub faithful : IsFaithful h Known files'
  pub extends : Extends files files'
  pub restored : (later : Files) → Extends files' later → resolve_item h later ref ≡ done item
  pub complete : modality_post_init h ref ≡ done ref
  pub no_bytes : is_bytes ref.content ≡ false
  pub stable : (any : Files) → externalize_content h limit ref ref.content any ≡ (any, done ref)

-- what the whole loop has done
pub record IsLoop {N : Type 0} (h : Host N) (limit : ℕ) (Known : List ℕ → Type 0)
    (items refs : List (ModalityRef N)) (files files' : Files) : Type 0 where
  pub faithful : IsFaithful h Known files'
  pub extends : Extends files files'
  pub restored : (later : Files) → Extends files' later → resolve_items h later refs ≡ done items
  pub complete : modalities_of h refs ≡ done refs
  pub no_bytes : has_bytes refs ≡ false
  pub stable : (any : Files) → externalize_items h limit refs any ≡ (any, done refs)

module _ {N : Type 0} {h : Host N} {Known : List ℕ → Type 0} (i : IsHost h) (d : IsDigest h Known)
    (limit : ℕ) where
  -- a turn that leaves the item as it is
  kept :
      (item : ModalityRef N) (files : Files)
      → IsPlain h Known limit item
      → IsFaithful h Known files
      → ((any : Files) → externalize_content h limit item item.content any ≡ (any, done item))
      → IsTurn h limit Known item item files files
  unfolding resolve_item
  kept item files p f stays = record {
    stable = stays;
    faithful = f;
    extends = λ sha raw e. e;
    restored = λ later e. rw (p.reference, resolve_item) refl;
    complete = p.complete;
    no_bytes = p.no_bytes;
  }

  moved :
      (item : ModalityRef N) (content : Content N) (files : Files)
      → modality_post_init h item ≡ done item
      → item.content ≡ some content
      → IsOwn h Known item content
      → IsFaithful h Known files
      → IsTurn h limit Known item
          (own_reference d item content)
          files
          (write_new (h.sha256 (content_bytes h content)) (content_bytes h content) files)
  unfolding externalize_content
  moved item content files e c own f =
      let raw = content_bytes h content in
      let sha = h.sha256 raw in
      record {
        faithful = write_new-IsFaithful d files raw own.known f;
        extends = write_new-Extends files sha raw;
        restored = λ later ext.
            resolve_own d i item content later e c own
              (ext sha raw (write_new-get d files raw own.known f));
        complete = blob_item_complete d item content sha raw e;
        no_bytes = refl;
        stable = λ any. refl;
      }

  turn :
      (item : ModalityRef N) (content : Option (Content N)) (files : Files)
      → item.content ≡ content
      → IsPlain h Known limit item
      → IsFaithful h Known files
      → (files' : Files) × (ref : ModalityRef N) × (externalize_content h limit item content files
          ≡ (files', done ref))
        × IsTurn h limit Known item ref files files'
  unfolding externalize_content
  turn item none files c p f = (
    files,
    item,
    refl,
    kept item files p f (λ any. ap (λ x. externalize_content h limit item x any) c),
  )
  turn item (some content) files c p f =
      elim (Bool-cases (leb (length (content_bytes h content)) limit)) [
        | inl small ↦ (
          files,
          item,
          rw (small, externalize_content) refl,
          kept item files p f (λ any.
              ap (λ x. externalize_content h limit item x any) c
              ∙ rw (small, externalize_content) refl),
        )
        | inr large ↦
            let own = p.large content c large in
            (
              write_new (h.sha256 (content_bytes h content)) (content_bytes h content) files,
              own_reference d item content,
              rw (large, externalize_content) (externalize_own d item content files p.complete own),
              moved item content files p.complete c own f,
            )
      ]

  one_more :
      (item ref : ModalityRef N) (items refs : List (ModalityRef N)) (files files' files'' : Files)
      → externalize_content h limit item item.content files ≡ (files', done ref)
      → externalize_items h limit items files' ≡ (files'', done refs)
      → externalize_items h limit (item ∷ items) files ≡ (files'', done (ref ∷ refs))
  unfolding externalize_items
  one_more item ref items refs files files' files'' e e' =
      ap
        (λ (made : Files × Result Error (ModalityRef N)).
          after_item h made (externalize_items h limit items made.0))
        e
      ∙ ap (after_item h (files', done ref)) e'

  turn-IsLoop :
      (item ref : ModalityRef N) (items refs : List (ModalityRef N)) (files files' files'' : Files)
      → IsTurn h limit Known item ref files files'
      → IsLoop h limit Known items refs files' files''
      → IsLoop h limit Known (item ∷ items) (ref ∷ refs) files files''
  unfolding resolve_items modalities_of has_bytes any_of
  turn-IsLoop item ref items refs files files' files'' t l = record {
    faithful = l.faithful;
    extends = λ sha raw g. l.extends sha raw (t.extends sha raw g);
    restored = λ later g.
        rw (t.restored later (λ sha raw k. g sha raw (l.extends sha raw k)), l.restored later g)
          refl;
    complete = rw (t.complete, l.complete) refl;
    no_bytes = rw (t.no_bytes, any_of) l.no_bytes;
    stable = λ any. one_more ref ref refs refs any any any (t.stable any) (l.stable any);
  }

  pub externalize_items_lem :
      (items : List (ModalityRef N)) (files : Files)
      → All (IsPlain h Known limit) items
      → IsFaithful h Known files
      → (files' : Files) × (refs : List (ModalityRef N)) × (externalize_items h limit items files
          ≡ (files', done refs))
        × IsLoop h limit Known items refs files files'
  unfolding externalize_items resolve_items modalities_of has_bytes any_of
  externalize_items_lem [] files p f = (
    files,
    [],
    refl,
    record {
      faithful = f;
      extends = λ sha raw e. e;
      restored = λ later e. refl;
      complete = refl;
      no_bytes = refl;
      stable = λ any. refl;
    },
  )
  externalize_items_lem (item ∷ items) files p f =
      let (files', ref, e, t) = turn item item.content files refl p.0 f in
      let (files'', refs, e', l) = externalize_items_lem items files' p.1 t.faithful in
      (
        files'',
        ref ∷ refs,
        one_more item ref items refs files files' files'' e e',
        turn-IsLoop item ref items refs files files' files'' t l,
      )
