-- ===== src/Vault/Integrity.antt =====
-- The log: checking its lines against their hashes, and rebuilding the indexes from it.
use agent_memory_living_memo.Prelude.{
  ℕ, suc, ℕ_eq, contains, is_empty, some, Bool, true, false, not, none, List, [], ◌∷◌, ◌++◌, Text,
  Text_eq, ◌==◌, if◌then◌else◌,
}
use agent_memory_living_memo.Prelude.Floats.{Floats}
use agent_memory_living_memo.Prelude.Results.{Result, raised, done}
use agent_memory_living_memo.Prelude.Strings.{strip}
use agent_memory_living_memo.Schema.{MemoryEnvelope}
use agent_memory_living_memo.Schema.Envelope.{from_dict, compute_content_hash}
use agent_memory_living_memo.Schema.Host.{Error}
use agent_memory_living_memo.Schema.Host.Error.{value_error}
use agent_memory_living_memo.Graph
use agent_memory_living_memo.Facts
use agent_memory_living_memo.Facts.{FactRecord}
use agent_memory_living_memo.Knowledge
use agent_memory_living_memo.Knowledge.Queries.{index_fact}
use agent_memory_living_memo.Store.{TemporalStore, clear_indexes, resolve_blobs}
use agent_memory_living_memo.Vault.{
  Setup, MemoryVault, with_graph, ledger_of, unless_raised, remember,
}

-- What `verify_integrity` reports: the number of lines that were checked, the ids that do not agree
-- with their hash or their blob, and the numbers of the lines that cannot be read.
pub record Report : Type 0 where
  pub checked : ℕ
  pub tampered : List Text
  pub invalid_lines : List ℕ

-- The characters that end a line for `str.splitlines`; a JSON text has no carriage return, so a pair
-- of one and a line feed does not occur.
abbrev pub line_ends : List ℕ
line_ends = 10 ∷ 11 ∷ 12 ∷ 13 ∷ 28 ∷ 29 ∷ 30 ∷ 133 ∷ 8232 ∷ 8233 ∷ []

-- `text.splitlines()`, with the start of the line that is being read
unfoldable pub splitlines : Text → Text → List Text
unfolding is_empty contains
splitlines line [] = if is_empty line then [] else line ∷ []
splitlines line (c ∷ s) = elim (contains line_ends c) [
  | true ↦ line ∷ splitlines [] s
  | false ↦ splitlines (line ++ c ∷ []) s
]

module _ (F : Floats) (setup : Setup F) where
  open F use {Float}
  open setup use {host, blob_threshold, fact_digest, digests}

  -- whether the hash of a resolved memory, or the lack of one, is an alarm
  abbrev pub hash_differs : Text → Result Error Text → Bool
  hash_differs hash (raised e) = true
  hash_differs hash (done computed) = not (computed == hash)

  -- Whether a memory is reported. That `compute_content_hash` raises on bytes ends the whole check
  -- in the source; it does not happen, since the memory was read from JSON.
  abbrev pub disagrees : Result Error (MemoryEnvelope Float) → Bool
  disagrees (raised e) = true
  disagrees (done m) = hash_differs m.content_hash (compute_content_hash host m)

  abbrev pub noted : Text → Bool → Report → Report
  noted id bad r = record r {
    checked = suc r.checked;
    tampered = if bad then r.tampered ++ id ∷ [] else r.tampered;
  }

  -- The text of the log: every memory's text and a line feed.
  unfoldable pub file_text : List (MemoryEnvelope Float) → Text
  file_text [] = []
  file_text (m ∷ log) = setup.line_text m ++ (10 ∷ file_text log)

  -- `MemoryEnvelope.from_dict(json.loads(line))`
  unfoldable pub read_line : Float → Text → Result Error (MemoryEnvelope Float)
  unfolding from_dict
  read_line now line = elim (setup.loads_line line) [
    | none ↦ raised value_error
    | some d ↦ from_dict F host now d
  ]

  -- the report after a line that is not blank
  abbrev pub checked_line :
      Float → ℕ → Result Error (MemoryEnvelope Float) → TemporalStore Float → Report → Report
  checked_line now number (raised e) s r = record r {
    invalid_lines = r.invalid_lines ++ number ∷ [];
  }
  checked_line now number (done memory) s r =
      noted memory.id (disagrees (resolve_blobs F host blob_threshold now memory s.blobs)) r

  -- the loop over the lines, which are numbered from 1; blank ones are skipped
  unfoldable pub verify_lines : Float → ℕ → List Text → TemporalStore Float → Report → Report
  unfolding read_line resolve_blobs compute_content_hash strip is_empty
  verify_lines now number [] s r = r
  verify_lines now number (line ∷ lines) s r =
      verify_lines now (suc number) lines s
        (if is_empty (strip line) then r else checked_line now number (read_line now line) s r)

  unfoldable pub verify_integrity : Float → MemoryVault Float → Report
  unfolding verify_lines splitlines file_text
  verify_integrity now v =
      verify_lines now 1 (splitlines [] (file_text v.store.log)) v.store
        (record { checked = 0; tampered = []; invalid_lines = [] })

  -- what a line of the log is remembered as
  abbrev pub remember_line :
      Float
      → MemoryVault Float
      → Result Error (MemoryEnvelope Float)
      → MemoryVault Float × Result Error Text
  remember_line now v (raised e) = (v, raised e)
  remember_line now v (done memory) = remember F setup now memory none false false v

  -- what follows a line; the first error ends the loop
  abbrev pub next_line :
      MemoryVault Float × Result Error Text
      → (MemoryVault Float → MemoryVault Float × Result Error (Unit {0}))
      → MemoryVault Float × Result Error (Unit {0})
  next_line (v, raised e) next = (v, raised e)
  next_line (v, done id) next = next v

  unfoldable pub replay_lines :
      Float → List Text → MemoryVault Float → MemoryVault Float × Result Error (Unit {0})
  unfolding read_line remember strip is_empty
  replay_lines now [] v = (v, done tt)
  replay_lines now (line ∷ lines) v = elim (is_empty (strip line)) [
    | true ↦ replay_lines now lines v
    | false ↦ next_line (remember_line now v (read_line now line)) (replay_lines now lines)
  ]

  -- `self.facts.rebuild_graph_index()`
  unfoldable pub rebuild_facts : MemoryVault Float → MemoryVault Float × Result Error (Unit {0})
  unfolding Facts.rebuild_graph_index
  rebuild_facts v =
      let rebuilt = Facts.rebuild_graph_index F host.lower fact_digest (ledger_of F setup v) in
      (with_graph F setup rebuilt.0.graph v, if rebuilt.1 then done tt else raised value_error)

  -- the last loop
  unfoldable pub index_all_facts :
      List (FactRecord Float) → MemoryVault Float → MemoryVault Float × Result Error (Unit {0})
  unfolding index_fact
  index_all_facts [] v = (v, done tt)
  index_all_facts (fact ∷ facts) v =
      let indexed = index_fact F host.lower digests fact v.knowledge in
      unless_raised F setup
        (
          record v { knowledge = indexed.0 },
          elim indexed.1 [ raised e ↦ raised e | done a ↦ done tt ],
        )
        (index_all_facts facts)

  -- the indexes without rows
  abbrev pub cleared : MemoryVault Float → MemoryVault Float
  cleared v = record v {
    store = clear_indexes v.store;
    knowledge = record (Knowledge.clear v.knowledge) {
      graph = Graph.clear F host.lower v.knowledge.graph;
    };
  }

  -- the call after the indexes are cleared, for a log that exists
  unfoldable pub rebuild_from :
      Float → List Text → MemoryVault Float → MemoryVault Float × Result Error (Unit {0})
  unfolding replay_lines rebuild_facts index_all_facts Facts.list_facts
  rebuild_from now lines v = unless_raised F setup (replay_lines now lines v) λ v₁.
      unless_raised F setup (rebuild_facts v₁) λ v₂.
        index_all_facts
          (Facts.list_facts F host.lower fact_digest [] [] none (ledger_of F setup v₂)) v₂

  -- The vault after the call, and the error that was raised, if any. The file of the log exists
  -- when it has a line: only `remember` creates it, to write one.
  unfoldable pub rebuild_indexes :
      Float → MemoryVault Float → MemoryVault Float × Result Error (Unit {0})
  unfolding clear_indexes Graph.clear Knowledge.clear rebuild_from splitlines file_text is_empty
  rebuild_indexes now v =
      if is_empty v.store.log
      then (cleared v, done tt)
      else rebuild_from now (splitlines [] (file_text v.store.log)) (cleared v)
