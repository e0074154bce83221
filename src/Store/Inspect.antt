-- ===== src/Store/Inspect.antt =====
-- Remembering a memory and inspecting it: the whole memory comes back, with the contents that were
-- moved to files.
use agent_memory_living_memo.Prelude.{
  ℕ, true, false, ◌||◌, some, List, [], ◌∷◌, ◌++◌, Text, Text_eq, ◌==◌, filter_by, All,
  if◌then◌else◌, beq_self, ◌≡◌, refl, ap, sym, ◌∙◌, subst, arith,
}
use agent_memory_living_memo.Prelude.Dict
use agent_memory_living_memo.Prelude.Floats.{Floats}
use agent_memory_living_memo.Prelude.Results.{done}
use agent_memory_living_memo.Mobius.{MobiusAddress, MobiusIndex, AddressMaterial, address_for}
use agent_memory_living_memo.Schema.{MemoryEnvelope, ModalityRef}
use agent_memory_living_memo.Schema.Envelope.{
  to_dict, from_dict, created_or, text_content, has_bytes,
}
use agent_memory_living_memo.Schema.Host.{Host, IsHost}
use agent_memory_living_memo.Schema.Modality.{modalities_of}
use agent_memory_living_memo.Schema.Seal.{IsSealed, from_dict-to_dict}
use agent_memory_living_memo.Store.{
  TemporalStore, replace_row, with_modalities, externalize_large_payloads, resolve_blobs,
  write_rows, append_line, finish_remember, remember, stored_memory, inspect, address_of_memory,
}
use agent_memory_living_memo.Store.Blobs.{externalize_items, Files}
use agent_memory_living_memo.Store.Loops.{IsLoop, externalize_items_lem}
use agent_memory_living_memo.Store.Restore.{IsDigest, IsPlain, IsFaithful, Extends}

-- what a table has under a key after a row was replaced
pub get-replace_row :
    {V : Type 0} (id asked : Text) (v : V) (rows : List (Text × V))
    → Dict.get asked (replace_row id v rows) ≡ (if id == asked then some v else Dict.get asked rows)
unfolding replace_row filter_by Dict.get
get-replace_row id asked v [] = refl
get-replace_row id asked v ((first, w) ∷ rows) = ground (
  arith,
  Text_eq.same_iff first id,
  Text_eq.same_iff first asked,
  Text_eq.same_iff id asked,
  get-replace_row id asked v rows,
)

own_row :
    {V : Type 0} (id : Text) (v : V) (rows : List (Text × V))
    → Dict.get id (replace_row id v rows) ≡ some v
own_row id v rows = get-replace_row id id v rows ∙ rw (beq_self id) refl

other_row :
    {V : Type 0} (id asked : Text) (v : V) (rows : List (Text × V))
    → (id == asked) ≡ false
    → Dict.get asked (replace_row id v rows) ≡ Dict.get asked rows
other_row id asked v rows other = get-replace_row id asked v rows ∙ rw other refl

module _ (F : Floats) where
  open F use {Float, lt, of_ℕ}

  -- a time that is not zero
  abbrev pub IsDated : Float → Type 0
  IsDated t = (lt t (of_ℕ 0) || lt (of_ℕ 0) t) ≡ true

  pub created_or-dated : (now t : Float) → IsDated t → created_or F now (some t) ≡ t
  unfolding created_or
  created_or-dated now t e = rw e refl

module _ (F : Floats) {h : Host F.Float} (i : IsHost h) where
  open F use {Float}

  -- a sealed memory with other complete modalities is sealed
  pub with_items-IsSealed :
      (m : MemoryEnvelope Float) (items : List (ModalityRef Float))
      → IsSealed F h m
      → modalities_of h items ≡ done items
      → IsSealed F h (record m { modalities = items })
  with_items-IsSealed m items s c = record {
    modalities = c;
    memory_type = s.memory_type;
    tags = s.tags;
    entities = s.entities;
    importance = s.importance;
    confidence = s.confidence;
    content_hash = s.content_hash;
    id = s.id;
  }

  -- and it is what `from_dict` makes of its dictionary
  pub with_modalities_lem :
      (limit : ℕ) (now : Float) (m : MemoryEnvelope Float) (items : List (ModalityRef Float))
      → IsSealed F h m
      → IsDated F m.created_at
      → modalities_of h items ≡ done items
      → with_modalities F h limit now m items ≡ done (record m { modalities = items })
  unfolding with_modalities to_dict
  with_modalities_lem limit now m items s t c =
      from_dict-to_dict F i now (record m { modalities = items }) (with_items-IsSealed m items s c)
        (created_or-dated F now m.created_at t)

  module _ {Known : List ℕ → Type 0} (d : IsDigest h Known) (limit : ℕ) where
    -- what `remember` makes of a memory: the rows it writes and what is in the files
    pub record IsKept (m stored : MemoryEnvelope Float) (s s' : TemporalStore Float) : Type 0 where
      pub row : Dict.get m.id s'.memories ≡ some stored
      pub others :
          (id : Text) → (m.id == id) ≡ false → Dict.get id s'.memories ≡ Dict.get id s.memories
      pub faithful : IsFaithful h Known s'.blobs
      pub extends : Extends s.blobs s'.blobs
      pub logged : s'.log ≡ s.log ++ stored ∷ []
      pub sealed : IsSealed F h stored
      pub readable :
          (now : Float) (later : Files)
          → Extends s'.blobs later
          → resolve_blobs F h limit now stored later ≡ done m
      pub same : record stored { modalities = m.modalities } ≡ m
      pub stable :
          (any : Files)
          → externalize_items h limit stored.modalities any ≡ (any, done stored.modalities)
      pub no_bytes : has_bytes stored.modalities ≡ false

    module _ (digest : AddressMaterial Float → List ℕ) (grid : MobiusIndex) where
      finish_remember_lem :
          (m stored : MemoryEnvelope Float) (s : TemporalStore Float) {address : MobiusAddress}
          → address_for digest grid m ≡ some address
          → has_bytes stored.modalities ≡ false
          → finish_remember F h limit digest grid m true s stored ≡ (
            append_line F h limit true stored
                (write_rows F h limit stored (text_content h m) address s),
            done stored.id,
          )
      unfolding finish_remember
      finish_remember_lem m stored s a b = rw (a, finish_remember, b) refl

      -- the store after a memory is remembered
      abbrev written_store :
          MemoryEnvelope Float
          → TemporalStore Float
          → List (ModalityRef Float)
          → Files
          → MobiusAddress
          → TemporalStore Float
      written_store m s refs files address =
          let stored : MemoryEnvelope Float = record m { modalities = refs } in
          append_line F h limit true stored
            (write_rows F h limit stored (text_content h m) address (record s { blobs = files }))

      remember_unfold :
          (now : Float) (m stored : MemoryEnvelope Float) (s : TemporalStore Float) (files : Files)
          → from_dict F h now (to_dict m) ≡ done m
          → externalize_large_payloads F h limit now m s.blobs ≡ (files, done stored)
          → remember F h limit digest grid now m true s
            ≡ finish_remember F h limit digest grid m true (record s { blobs = files }) stored
      unfolding remember
      remember_unfold now m stored s files e e' = rw (e, remember, e') refl

      -- a memory with its contents moved to files is sealed, and its contents are read back
      kept_lem :
          (m : MemoryEnvelope Float) (s : TemporalStore Float) (refs : List (ModalityRef Float))
          (files : Files) (address : MobiusAddress)
          → IsSealed F h m
          → IsDated F m.created_at
          → IsLoop h limit Known m.modalities refs s.blobs files
          → IsKept m (record m { modalities = refs }) s (written_store m s refs files address)
      unfolding write_rows resolve_blobs
      kept_lem m s refs files address seal dated l =
          let stored : MemoryEnvelope Float = record m { modalities = refs } in
          record {
            row = own_row m.id stored s.memories;
            others = λ id other. other_row m.id id stored s.memories other;
            faithful = l.faithful;
            extends = l.extends;
            logged = refl;
            sealed = with_items-IsSealed m refs seal l.complete;
            readable = λ now later ext.
                rw (l.restored later ext, resolve_blobs)
                  (with_modalities_lem limit now stored m.modalities
                    (with_items-IsSealed m refs seal l.complete) dated seal.modalities);
            same = refl;
            stable = l.stable;
            no_bytes = l.no_bytes;
          }

      pub remember_lem :
          (now : Float) (m : MemoryEnvelope Float) (s : TemporalStore Float)
          {address : MobiusAddress}
          → IsSealed F h m
          → IsDated F m.created_at
          → All (IsPlain h Known limit) m.modalities
          → IsFaithful h Known s.blobs
          → address_for digest grid m ≡ some address
          → (stored : MemoryEnvelope Float) × (s' : TemporalStore Float) × (remember F h limit
                digest grid now m true s
              ≡ (s', done m.id))
            × (Dict.get m.id s'.mobius_index ≡ some address)
            × IsKept m stored s s'
      unfolding externalize_large_payloads resolve_blobs write_rows
      remember_lem now m s {address} seal dated plain faithful a =
          let (files, refs, e, l) =
            externalize_items_lem i d limit m.modalities s.blobs plain faithful in
          let stored : MemoryEnvelope Float = record m { modalities = refs } in
          let moved : externalize_large_payloads F h limit now m s.blobs ≡ (files, done stored) =
            rw
              (
                externalize_large_payloads,
                e,
                with_modalities_lem limit now m refs seal dated l.complete,
              )
              refl in
          let s₁ : TemporalStore Float = record s { blobs = files } in
          (
            stored,
            written_store m s refs files address,
            remember_unfold now m stored s files
                  (from_dict-to_dict F i now m seal (created_or-dated F now m.created_at dated))
                  moved
                ∙ finish_remember_lem m stored s₁ a l.no_bytes,
            own_row m.id address s.mobius_index,
            kept_lem m s refs files address seal dated l,
          )

      inspect_kept :
          (now : Float) (m stored : MemoryEnvelope Float) (s s' : TemporalStore Float)
          → IsDated F m.created_at
          → IsKept m stored s s'
          → inspect F h limit now m.id true s' ≡ done m
      unfolding inspect stored_memory
      inspect_kept now m stored s s' dated k =
          let dated' : IsDated F stored.created_at =
            subst (IsDated F) (sym (ap (λ (x : MemoryEnvelope Float). x.created_at) k.same))
              dated in
          let read : stored_memory F h limit now m.id s' ≡ done stored =
            rw (k.row, stored_memory)
              (from_dict-to_dict F i now stored k.sealed
                (created_or-dated F now stored.created_at dated')) in
          rw (read, inspect) (k.readable now s'.blobs (λ sha raw e. e))

      -- Take a sealed memory that was not created at time 0, with an address, none of whose items
      -- holds bytes or refers to a file of the store. Let each large content come back from its JSON
      -- text, with its own digest and size, no uri and no mark of a file's format in its metadata. In a
      -- store whose files carry their digests, and where no two contents share a digest, it is
      -- remembered without an error. Inspecting its id then gives the memory back, with its contents,
      -- and its row of the address index is its address. The log is the old log with one line at its
      -- end, which is also the memory's row, and differs from the memory in the items at most. The
      -- rows of all other ids are as before, and the files carry their digests as before.
      pub inspect-remember :
          (now asked : Float) (m : MemoryEnvelope Float) (s : TemporalStore Float)
          {address : MobiusAddress}
          → IsSealed F h m
          → IsDated F m.created_at
          → All (IsPlain h Known limit) m.modalities
          → IsFaithful h Known s.blobs
          → address_for digest grid m ≡ some address
          → (s' : TemporalStore Float) × (remember F h limit digest grid now m true s
              ≡ (s', done m.id))
            × (inspect F h limit asked m.id true s' ≡ done m)
            × (address_of_memory m.id s' ≡ done address)
            × ((stored : MemoryEnvelope Float) × (s'.log ≡ s.log ++ stored ∷ [])
                × (Dict.get m.id s'.memories ≡ some stored)
                × (record stored { modalities = m.modalities } ≡ m))
            × ((id : Text)
                → (m.id == id) ≡ false
                → Dict.get id s'.memories ≡ Dict.get id s.memories)
            × IsFaithful h Known s'.blobs
      unfolding address_of_memory
      inspect-remember now asked m s seal dated plain faithful a =
          let (stored, s', e, placed, k) = remember_lem now m s seal dated plain faithful a in
          (
            s',
            e,
            inspect_kept asked m stored s s' dated k,
            rw (placed, address_of_memory) refl,
            (stored, k.logged, k.row, k.same),
            k.others,
            k.faithful,
          )
