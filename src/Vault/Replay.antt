-- ===== src/Vault/Replay.antt =====
-- Rebuilding the indexes from the log gives every id the memory that it had.
use agent_memory_living_memo.Prelude.{
  ℕ, ℕ_eq, true, false, contains, is_empty, map, arith, Option, none, some, List, [], ◌∷◌, ◌++◌,
  Text, Text_eq, ◌==◌, All, if◌then◌else◌, Bool-cases, ◌≡◌, refl, ap, sym, ◌∙◌, subst, inl, inr,
}
use mathlib.Core.List.{append-nil, append_assoc}
use agent_memory_living_memo.Prelude.Dict
use agent_memory_living_memo.Prelude.Floats.{Floats}
use agent_memory_living_memo.Prelude.Results.{Result, raised, done, raised_not_done}
use agent_memory_living_memo.Prelude.Strings.{strip}
use agent_memory_living_memo.Mobius.{MobiusAddress, MobiusIndex, AddressMaterial, address_for}
use agent_memory_living_memo.Schema.{MemoryEnvelope}
use agent_memory_living_memo.Schema.Envelope.{to_dict, from_dict, text_content, has_bytes}
use agent_memory_living_memo.Schema.Host.{Error, Host, IsHost}
use agent_memory_living_memo.Facts
use agent_memory_living_memo.Facts.{FactRecord}
use agent_memory_living_memo.Store
use agent_memory_living_memo.Store.{
  TemporalStore, externalize_large_payloads, with_modalities, write_rows, append_line,
  finish_remember, clear_indexes,
}
use agent_memory_living_memo.Store.Blobs.{Files, externalize_items}
use agent_memory_living_memo.Store.Inspect.{get-replace_row, IsDated, IsKept, remember_lem}
use agent_memory_living_memo.Store.Restore.{IsDigest, IsPlain, IsFaithful}
use agent_memory_living_memo.Schema.Seal.{IsSealed}
use agent_memory_living_memo.Vault.{
  Setup, MemoryVault, unless_raised, after_store, index_graph, index_knowledge, index_parts,
  remember, ledger_of,
}
use agent_memory_living_memo.Vault.Integrity.{
  remember_line, next_line, replay_lines, rebuild_facts, index_all_facts, cleared, rebuild_indexes,
  rebuild_from, read_line, file_text, splitlines, line_ends,
}

-- the memory of an id in the lines of a log: the last one, or the one before the lines
unfoldable pub last_line :
    {N : Type 0}
    → Text
    → List (MemoryEnvelope N)
    → Option (MemoryEnvelope N)
    → Option (MemoryEnvelope N)
last_line id [] before = before
last_line id (line ∷ lines) before =
    last_line id lines (if line.id == id then some line else before)

last_line-empty :
    {N : Type 0} (id : Text) (lines : List (MemoryEnvelope N))
    → is_empty lines ≡ true
    → last_line id lines none ≡ none
unfolding last_line is_empty
last_line-empty id [] e = refl
last_line-empty id (line ∷ lines) e = absurd (ground (arith, e))

module _ (F : Floats) (setup : Setup F) where
  open F use {Float}
  open setup use {host, blob_threshold, address_digest, grid}

  -- a memory of the log that is remembered as it stands: its text is one line and not blank, from
  -- which it is read again, and it moves nothing to a file and has an address
  pub record IsStable (line : MemoryEnvelope Float) : Type 0 where
    pub unbroken : All (λ c. contains line_ends c ≡ false) (setup.line_text line)
    pub filled : is_empty (strip (setup.line_text line)) ≡ false
    pub loaded : setup.loads_line (setup.line_text line) ≡ some (to_dict line)
    pub again : (now : Float) → from_dict F host now (to_dict line) ≡ done line
    pub inline :
        (files : Files)
        → externalize_items host blob_threshold line.modalities files
          ≡ (files, done line.modalities)
    pub no_bytes : has_bytes line.modalities ≡ false
    pub address : MobiusAddress
    pub placed : address_for address_digest grid line ≡ some address

  externalize-stable :
      (now : Float) (line : MemoryEnvelope Float) (files : Files)
      → IsStable line
      → externalize_large_payloads F host blob_threshold now line files ≡ (files, done line)
  unfolding externalize_large_payloads with_modalities
  externalize-stable now line files s =
      rw (externalize_large_payloads, s.inline files) (ap (λ r. (files, r)) (s.again now))

  finish-stable :
      (line : MemoryEnvelope Float) (s : TemporalStore Float) (t : IsStable line)
      → finish_remember F host blob_threshold address_digest grid line false s line ≡ (
        append_line F host blob_threshold false line
            (write_rows F host blob_threshold line (text_content host line) t.address s),
        done line.id,
      )
  unfolding finish_remember
  finish-stable line s t = rw (t.placed, finish_remember, t.no_bytes) refl

  -- remembering a stable line writes its rows
  remember-stable :
      (now : Float) (line : MemoryEnvelope Float) (s : TemporalStore Float) (t : IsStable line)
      → Store.remember F host blob_threshold address_digest grid now line false s
        ≡ (write_rows F host blob_threshold line (text_content host line) t.address s, done line.id)
  unfolding Store.remember
  remember-stable now line s t =
      rw (t.again now, Store.remember, externalize-stable now line s.blobs t)
        (finish-stable line s t)

  -- what follows a part leaves the store alone, if each part does
  unless_raised-store :
      {A : Type 0} (s : TemporalStore Float) (p : MemoryVault Float × Result Error (Unit {0}))
      (next : MemoryVault Float → MemoryVault Float × Result Error A)
      → p.0.store ≡ s
      → ((v : MemoryVault Float) → v.store ≡ s → (next v).0.store ≡ s)
      → (unless_raised F setup p next).0.store ≡ s
  unless_raised-store s (v, raised e) next h rest = h
  unless_raised-store s (v, done u) next h rest = rest v h

  index_parts-store :
      (memory : MemoryEnvelope Float) (v : MemoryVault Float)
      → (index_parts F setup memory false v).0.store ≡ v.store
  unfolding index_parts index_graph index_knowledge
  index_parts-store memory v =
      unless_raised-store v.store (index_graph F setup memory v) _ refl
        (λ v₁ e. unless_raised-store v.store (index_knowledge F setup memory v₁) _ e (λ v₂ e'. e'))

  after_store-store :
      (memory : MemoryEnvelope Float) (v : MemoryVault Float)
      (p : TemporalStore Float × Result Error Text)
      → (after_store F setup memory none false v p).0.store ≡ p.0
  after_store-store memory v (s, raised e) = refl
  after_store-store memory v (s, done id) =
      unless_raised-store s (index_parts F setup memory false (record v { store = s })) _
        (index_parts-store memory (record v { store = s })) (λ v' e. e)

  -- the lines of the text of a log whose memories have one line each
  splitlines_past :
      (line text rest : Text)
      → All (λ c. contains line_ends c ≡ false) text
      → splitlines line (text ++ (10 ∷ rest)) ≡ (line ++ text) ∷ splitlines [] rest
  unfolding splitlines contains
  splitlines_past line [] rest h = ap (λ l. l ∷ splitlines [] rest) (sym (append-nil line))
  splitlines_past line (c ∷ text) rest h =
      rw (h.0, splitlines)
        (splitlines_past (line ++ c ∷ []) text rest h.1
          ∙ ap (λ l. l ∷ splitlines [] rest) (append_assoc line (c ∷ []) text))

  splitlines-file_text :
      (log : List (MemoryEnvelope Float))
      → All IsStable log
      → splitlines [] (file_text F setup log) ≡ map setup.line_text log
  unfolding splitlines file_text is_empty
  splitlines-file_text [] t = refl
  splitlines-file_text (m ∷ log) t =
      splitlines_past [] (setup.line_text m) (file_text F setup log) t.0.unbroken
      ∙ ap (λ ls. setup.line_text m ∷ ls) (splitlines-file_text log t.1)

  read_line-stable :
      (now : Float) (line : MemoryEnvelope Float)
      → IsStable line
      → read_line F setup now (setup.line_text line) ≡ done line
  unfolding read_line
  read_line-stable now line t = rw (t.loaded, read_line) (t.again now)

  remember_line-store :
      (now : Float) (line : MemoryEnvelope Float) (v : MemoryVault Float) (t : IsStable line)
      → (remember_line F setup now v (read_line F setup now (setup.line_text line))).0.store
        ≡ write_rows F host blob_threshold line (text_content host line) t.address v.store
  unfolding remember
  remember_line-store now line v t = rw (read_line-stable now line t) (
      after_store-store line v
        (Store.remember F host blob_threshold address_digest grid now line false v.store)
      ∙ ap (λ p. p.0) (remember-stable now line v.store t))

  next_line-done :
      (p : MemoryVault Float × Result Error Text)
      (next : MemoryVault Float → MemoryVault Float × Result Error (Unit {0}))
      → (next_line F setup p next).1 ≡ done tt
      → next_line F setup p next ≡ next p.0
  next_line-done (v, raised e) next h = absurd (raised_not_done h)
  next_line-done (v, done id) next h = refl

  unless_raised-done :
      {A : Type 0} (p : MemoryVault Float × Result Error (Unit {0}))
      (next : MemoryVault Float → MemoryVault Float × Result Error A) {a : A}
      → (unless_raised F setup p next).1 ≡ done a
      → (p.1 ≡ done tt) × (unless_raised F setup p next ≡ next p.0)
  unless_raised-done (v, raised e) next h = absurd (raised_not_done h)
  unless_raised-done (v, done u) next h = (refl, refl)

  -- the memory that an id has after a stable line was remembered
  get-line :
      (id : Text) (line : MemoryEnvelope Float) (address : MobiusAddress) (s : TemporalStore Float)
      → Dict.get id
          (write_rows F host blob_threshold line (text_content host line) address s).memories
        ≡ (if line.id == id then some line else Dict.get id s.memories)
  unfolding write_rows
  get-line id line address s = get-replace_row line.id id line s.memories

  replay_lines-get :
      (now : Float) (lines : List (MemoryEnvelope Float)) (v : MemoryVault Float) (id : Text)
      → All IsStable lines
      → (replay_lines F setup now (map setup.line_text lines) v).1 ≡ done tt
      → Dict.get id (replay_lines F setup now (map setup.line_text lines) v).0.store.memories
        ≡ last_line id lines (Dict.get id v.store.memories)
  unfolding replay_lines last_line
  replay_lines-get now [] v id t h = refl
  replay_lines-get now (line ∷ lines) v id t h =
      let p : MemoryVault Float × Result Error Text =
        remember_line F setup now v (read_line F setup now (setup.line_text line)) in
      let texts = map setup.line_text lines in
      let turn : replay_lines F setup now (setup.line_text line ∷ texts) v
          ≡ next_line F setup p (replay_lines F setup now texts) =
        rw (t.0.filled, replay_lines) refl in
      let e : replay_lines F setup now (setup.line_text line ∷ texts) v
          ≡ replay_lines F setup now texts p.0 =
        turn
        ∙ next_line-done p (replay_lines F setup now texts)
            (subst (λ (q : MemoryVault Float × Result Error (Unit {0})). q.1 ≡ done tt) turn h) in
      let rest =
        replay_lines-get now lines p.0 id t.1
          (subst (λ (q : MemoryVault Float × Result Error (Unit {0})). q.1 ≡ done tt) e h) in
      let row : Dict.get id p.0.store.memories
          ≡ (if line.id == id then some line else Dict.get id v.store.memories) =
        ap (λ (s : TemporalStore Float). Dict.get id s.memories)
          (remember_line-store now line v t.0)
        ∙ get-line id line t.0.address v.store in
      ap (λ (q : MemoryVault Float × Result Error (Unit {0})). Dict.get id q.0.store.memories) e
      ∙ rest
      ∙ ap (last_line id lines) row

  index_all_facts-store :
      (facts : List (FactRecord Float)) (v : MemoryVault Float) (s : TemporalStore Float)
      → v.store ≡ s
      → (index_all_facts F setup facts v).0.store ≡ s
  unfolding index_all_facts
  index_all_facts-store [] v s h = h
  index_all_facts-store (fact ∷ facts) v s h =
      unless_raised-store s _ (index_all_facts F setup facts) h
        (λ v' e. index_all_facts-store facts v' s e)

  -- the facts of the last loop
  abbrev all_facts_of : MemoryVault Float → List (FactRecord Float)
  all_facts_of v = Facts.list_facts F host.lower setup.fact_digest [] [] none (ledger_of F setup v)

  rebuild_from-get :
      (now : Float) (lines : List (MemoryEnvelope Float)) (v : MemoryVault Float)
      → All IsStable lines
      → (rebuild_from F setup now (map setup.line_text lines) v).1 ≡ done tt
      → (id : Text)
      → Dict.get id (rebuild_from F setup now (map setup.line_text lines) v).0.store.memories
        ≡ last_line id lines (Dict.get id v.store.memories)
  unfolding rebuild_from rebuild_facts
  rebuild_from-get now lines v t h id =
      let p : MemoryVault Float × Result Error (Unit {0}) =
        replay_lines F setup now (map setup.line_text lines) v in
      let (replayed, e) = unless_raised-done p _ h in
      let after : (rebuild_from F setup now (map setup.line_text lines) v).0.store ≡ p.0.store =
        unless_raised-store p.0.store p _ refl (λ v₁ q.
          unless_raised-store p.0.store (rebuild_facts F setup v₁) _ q
            (λ v₂ q'. index_all_facts-store (all_facts_of v₂) v₂ p.0.store q')) in
      ap (λ (s : TemporalStore Float). Dict.get id s.memories) after
      ∙ replay_lines-get now lines v id t replayed

  -- Take a vault whose log has, for every id, the memory that the store has as its last memory of
  -- that id. Let each memory of the log be remembered as it stands: its JSON text is not blank and has
  -- no character at which Python splits lines, and is read again as the memory, which moves nothing to
  -- a file and has an address. If rebuilding the indexes raises no error, every id has then the memory
  -- that it had.
  pub rebuild_indexes-get :
      (now : Float) (v : MemoryVault Float)
      → All IsStable v.store.log
      → ((id : Text) → Dict.get id v.store.memories ≡ last_line id v.store.log none)
      → (rebuild_indexes F setup now v).1 ≡ done tt
      → (id : Text)
      → Dict.get id (rebuild_indexes F setup now v).0.store.memories ≡ Dict.get id v.store.memories
  unfolding rebuild_indexes clear_indexes Dict.get
  rebuild_indexes-get now v t logged h id = elim (Bool-cases (is_empty v.store.log)) [
    | inl e ↦ rw (e, rebuild_indexes) (sym (logged id ∙ last_line-empty id v.store.log e))
    | inr e ↦
        let same : rebuild_indexes F setup now v
            ≡ rebuild_from F setup now (map setup.line_text v.store.log) (cleared F setup v) =
          rw (e, rebuild_indexes)
            (ap (λ lines. rebuild_from F setup now lines (cleared F setup v))
              (splitlines-file_text v.store.log t)) in
        ap (λ (q : MemoryVault Float × Result Error (Unit {0})). Dict.get id q.0.store.memories)
          same
        ∙ rebuild_from-get now v.store.log (cleared F setup v) t
            (subst (λ (q : MemoryVault Float × Result Error (Unit {0})). q.1 ≡ done tt) same h) id
        ∙ sym (logged id)
  ]

last_line-append :
    {N : Type 0} (id : Text) (lines : List (MemoryEnvelope N)) (line : MemoryEnvelope N)
    (before : Option (MemoryEnvelope N))
    → last_line id (lines ++ line ∷ []) before
      ≡ (if line.id == id then some line else last_line id lines before)
unfolding last_line
last_line-append id [] line before = refl
last_line-append id (first ∷ lines) line before =
    last_line-append id lines line (if first.id == id then some first else before)

-- the log has every id's memory as its last line of that id
abbrev pub IsLogged : {N : Type 0} → TemporalStore N → Type 0
IsLogged s = (id : Text) → Dict.get id s.memories ≡ last_line id s.log none

module _ (F : Floats) {h : Host F.Float} (i : IsHost h) {Known : List ℕ → Type 0}
    (d : IsDigest h Known) (limit : ℕ) where
  open F use {Float}

  kept-IsLogged :
      (m stored : MemoryEnvelope Float) (s s' : TemporalStore Float)
      → IsKept F i d limit m stored s s'
      → IsLogged s
      → IsLogged s'
  kept-IsLogged m stored s s' k logged id =
      let same : stored.id ≡ m.id = ap (λ (x : MemoryEnvelope Float). x.id) k.same in
      let last : last_line id s'.log none
          ≡ (if m.id == id then some stored else last_line id s.log none) =
        ap (λ l. last_line id l none) k.logged
        ∙ last_line-append id s.log stored none
        ∙ ap (λ (x : Text). if x == id then some stored else last_line id s.log none) same in
      elim (Bool-cases (m.id == id)) [
        | inl e ↦
            ap (λ x. Dict.get x s'.memories) (sym ((Text_eq.same_iff m.id id).0 e))
            ∙ k.row
            ∙ sym (last ∙ rw e refl)
        | inr e ↦ k.others id e ∙ logged id ∙ sym (last ∙ rw e refl)
      ]

  -- Remembering a memory with its line in the log keeps the log up to date: if the log had every id's
  -- memory as its last line of that id, it has so after the call. The conditions on the memory and
  -- the files are those under which remembering is known to succeed.
  pub remember-IsLogged :
      (digest : AddressMaterial Float → List ℕ) (grid : MobiusIndex) (now : Float)
      (m : MemoryEnvelope Float) (s : TemporalStore Float) {address : MobiusAddress}
      → IsSealed F h m
      → IsDated F m.created_at
      → All (IsPlain h Known limit) m.modalities
      → IsFaithful h Known s.blobs
      → address_for digest grid m ≡ some address
      → IsLogged s
      → IsLogged (Store.remember F h limit digest grid now m true s).0
  remember-IsLogged digest grid now m s seal dated plain faithful a logged =
      let (stored, s', e, placed, k) =
        remember_lem F i d limit digest grid now m s seal dated plain faithful a in
      rw e (kept-IsLogged m stored s s' k logged)
