-- ===== src/Store.antt =====
-- store.py: the table of memories with their search texts and their addresses, the files of large
-- contents, and the log. A row's JSON text, and a line of the log, is the memory that it decodes
-- to; a dictionary that is written as JSON and read back is the same dictionary.
pub mod Blobs
pub mod Search
pub mod Safety
pub mod Restore
pub mod Loops
pub mod Inspect
pub mod Found
mod Tests
use agent_memory_living_memo.Prelude.{
  ℕ, Bool, true, false, not, Option, none, some, List, [], ◌∷◌, ◌++◌, Text, Text_eq, ◌==◌,
  filter_by, is_empty, if◌then◌else◌,
}
use agent_memory_living_memo.Prelude.Dict
use agent_memory_living_memo.Prelude.Floats.{Floats}
use agent_memory_living_memo.Prelude.Results.{Result, raised, done, and_then}
use agent_memory_living_memo.Mobius.{MobiusAddress, MobiusIndex, AddressMaterial, address_for}
use agent_memory_living_memo.Schema.{MemoryEnvelope, ModalityRef}
use agent_memory_living_memo.Schema.Envelope.{to_dict, from_dict, text_content, has_bytes}
use agent_memory_living_memo.Schema.Host.{Error, Host}
use agent_memory_living_memo.Schema.Host.Error.{value_error, type_error, key_error}
use agent_memory_living_memo.Store.Blobs.{Files, externalize_items, resolve_items}

-- The three tables, keyed by the memory's id, the directory of blobs by their digest, and the
-- lines of the log from the first to the last.
pub record TemporalStore (N : Type 0) : Type 0 where
  pub memories : List (Text × MemoryEnvelope N)
  pub memory_fts : List (Text × Text)
  pub mobius_index : List (Text × MobiusAddress)
  pub blobs : Files
  pub log : List (MemoryEnvelope N)

-- `INSERT OR REPLACE`, and a DELETE with an INSERT: the row goes to the end of the table
unfoldable pub replace_row {ℓ} : {V : Type ℓ} → Text → V → List (Text × V) → List (Text × V)
unfolding filter_by
replace_row id v rows = filter_by (λ row. not (row.0 == id)) rows ++ (id, v) ∷ []

module _ (F : Floats) (h : Host F.Float) (blob_threshold : ℕ) where
  open F use {Float}

  -- the memory whose modalities are replaced, as `from_dict` builds it
  unfoldable pub with_modalities :
      Float → MemoryEnvelope Float → List (ModalityRef Float) → Result Error (MemoryEnvelope Float)
  unfolding from_dict to_dict
  with_modalities now m items = from_dict F h now (record (to_dict m) { modalities = items })

  -- `_externalize_large_payloads`: the blobs after it, also if it raises
  unfoldable pub externalize_large_payloads :
      Float → MemoryEnvelope Float → Files → Files × Result Error (MemoryEnvelope Float)
  unfolding externalize_items with_modalities
  externalize_large_payloads now m blobs =
      let (files, items) = externalize_items h blob_threshold m.modalities blobs in
      (files, and_then items (with_modalities now m))

  unfoldable pub resolve_blobs :
      Float → MemoryEnvelope Float → Files → Result Error (MemoryEnvelope Float)
  unfolding resolve_items with_modalities
  resolve_blobs now m blobs = and_then (resolve_items h blobs m.modalities) (with_modalities now m)

  -- the rows of a memory, its address and its search text
  unfoldable pub write_rows :
      MemoryEnvelope Float → Text → MobiusAddress → TemporalStore Float → TemporalStore Float
  unfolding replace_row
  write_rows stored search_text address s = record s {
    memories = replace_row stored.id stored s.memories;
    memory_fts = replace_row stored.id search_text s.memory_fts;
    mobius_index = replace_row stored.id address s.mobius_index;
  }

  abbrev pub append_line : Bool → MemoryEnvelope Float → TemporalStore Float → TemporalStore Float
  append_line append_log stored s = record s {
    log = if append_log then s.log ++ stored ∷ [] else s.log;
  }

  module _ (digest : AddressMaterial Float → List ℕ) (grid : MobiusIndex) where
    -- The rest of `remember`, from the address on. The address raises on a digest that is too
    -- short, and `stable_json` on bytes.
    unfoldable pub finish_remember :
        MemoryEnvelope Float
        → Bool
        → TemporalStore Float
        → MemoryEnvelope Float
        → TemporalStore Float × Result Error Text
    unfolding address_for has_bytes write_rows text_content
    finish_remember original append_log s stored = elim (address_for digest grid original) [
      | none ↦ (s, raised value_error)
      | some address ↦ if has_bytes stored.modalities then (s, raised type_error) else (
        append_line append_log stored (write_rows stored (text_content h original) address s),
        done stored.id,
      )
    ]

    abbrev pub after_blobs :
        MemoryEnvelope Float
        → Bool
        → TemporalStore Float
        → Files × Result Error (MemoryEnvelope Float)
        → TemporalStore Float × Result Error Text
    after_blobs original append_log s (files, raised e) = (record s { blobs = files }, raised e)
    after_blobs original append_log s (files, done stored) =
        finish_remember original append_log (record s { blobs = files }) stored

    -- The store after the call, and the id of the memory or the error that was raised.
    unfoldable pub remember :
        Float
        → MemoryEnvelope Float
        → Bool
        → TemporalStore Float
        → TemporalStore Float × Result Error Text
    unfolding from_dict to_dict externalize_large_payloads finish_remember
    remember now memory append_log s = elim (from_dict F h now (to_dict memory)) [
      | raised e ↦ (s, raised e)
      | done original ↦
          after_blobs original append_log s (externalize_large_payloads now original s.blobs)
    ]

  -- The row that `inspect` reads.
  unfoldable pub stored_memory :
      Float → Text → TemporalStore Float → Result Error (MemoryEnvelope Float)
  unfolding Dict.get from_dict to_dict
  stored_memory now memory_id s = elim (Dict.get memory_id s.memories) [
    | none ↦ raised key_error
    | some row ↦ from_dict F h now (to_dict row)
  ]

  unfoldable pub inspect :
      Float → Text → Bool → TemporalStore Float → Result Error (MemoryEnvelope Float)
  unfolding stored_memory resolve_blobs
  inspect now memory_id resolve s =
      and_then (stored_memory now memory_id s)
        (λ m. if resolve then resolve_blobs now m s.blobs else done m)

module _ {N : Type 0} where
  unfoldable pub address_of_memory : Text → TemporalStore N → Result Error MobiusAddress
  unfolding Dict.get
  address_of_memory memory_id s = elim (Dict.get memory_id s.mobius_index) [
    | none ↦ raised key_error
    | some address ↦ done address
  ]

  -- The database file is deleted and created again; the blobs and the log are not in it.
  unfoldable pub clear_indexes : TemporalStore N → TemporalStore N
  clear_indexes s = record s { memories = []; memory_fts = []; mobius_index = [] }
