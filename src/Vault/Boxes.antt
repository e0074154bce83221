-- ===== src/Vault/Boxes.antt =====
-- The boxes: sessions whose memories are listed in the order in which they were first remembered.
use agent_memory_living_memo.Prelude.{
  leb, true, false, none, some, List, [], ◌∷◌, map, Text, Text_eq, codes, ◌==◌, filter_by, is_empty,
  if◌then◌else◌,
}
use agent_memory_living_memo.Prelude.Dict
use agent_memory_living_memo.Prelude.Floats.{Floats}
use agent_memory_living_memo.Prelude.Results.{Result, raised, done, and_then}
use agent_memory_living_memo.Prelude.Sort.{sort_by}
use agent_memory_living_memo.Schema.{Dict, MemoryEnvelope}
use agent_memory_living_memo.Schema.Create
use agent_memory_living_memo.Schema.Create.{Options}
use agent_memory_living_memo.Schema.Envelope.{to_dict, from_dict}
use agent_memory_living_memo.Schema.Host.{Error}
use agent_memory_living_memo.Schema.Host.Error.{value_error, key_error}
use agent_memory_living_memo.Schema.Values.{Json}
use agent_memory_living_memo.Store.{inspect}
use agent_memory_living_memo.Vault.{Setup, BoxInfo, BoxMemory, MemoryVault, remember}

-- the rows of a box, ORDER BY sequence
unfoldable pub box_rows : Text → List BoxMemory → List BoxMemory
unfolding filter_by sort_by
box_rows box_id rows =
    sort_by (λ a b. leb a.sequence b.sequence) (filter_by (λ row. row.box_id == box_id) rows)

unfoldable pub memory_ids_of : Text → List BoxMemory → List Text
unfolding box_rows
memory_ids_of box_id rows = map (λ row. row.memory_id) (box_rows box_id rows)

-- `scope.update(other)`
unfoldable pub update_scope : {N : Type 0} → Dict N → Dict N → Dict N
unfolding Dict.put
update_scope scope [] = scope
update_scope scope ((key, v) ∷ other) = update_scope (Dict.put key v scope) other

-- The scope of a memory in a box: the box's, then the memory's, then the box's id.
unfoldable pub box_scope : {N : Type 0} → BoxInfo N → Dict N → Dict N
unfolding update_scope Dict.put
box_scope info scope =
    Dict.put (codes "box_id") (Json.text info.id)
      (Dict.put (codes "session_id") (Json.text info.id) (update_scope info.scope scope))

module _ {N : Type 0} where
  -- `box_id` is the id that `uuid4` gives; an id that is taken raises.
  unfoldable pub open_box :
      Text → N → Text → Dict N → MemoryVault N → MemoryVault N × Result Error (BoxInfo N)
  unfolding Dict.get Dict.put
  open_box box_id now name scope v =
      let info : BoxInfo N = record {
        id = box_id;
        name = name;
        scope = scope;
        created_at = now;
        closed_at = none;
        state = codes "open";
      } in
      elim (Dict.get box_id v.boxes) [
        | some taken ↦ (v, raised value_error)
        | none ↦ (record v { boxes = Dict.put box_id info v.boxes }, done info)
      ]

  abbrev pub closed_at_time : N → BoxInfo N → BoxInfo N
  closed_at_time now info = record info { state = codes "closed"; closed_at = some now }

  -- an UPDATE, which changes nothing if there is no such box
  unfoldable pub close_box : Text → N → MemoryVault N → MemoryVault N
  unfolding Dict.get Dict.put
  close_box box_id now v = elim (Dict.get box_id v.boxes) [
    | none ↦ v
    | some info ↦ record v { boxes = Dict.put box_id (closed_at_time now info) v.boxes }
  ]

  -- the box and the ids of its memories
  unfoldable pub get_box : Text → MemoryVault N → Result Error (BoxInfo N × List Text)
  unfolding Dict.get memory_ids_of
  get_box box_id v = elim (Dict.get box_id v.boxes) [
    | none ↦ raised key_error
    | some info ↦ done (info, memory_ids_of box_id v.box_memories)
  ]

module _ (F : Floats) (setup : Setup F) where
  open F use {Float}
  open setup use {host, blob_threshold}

  unfoldable pub inspect_all :
      Float → List Text → MemoryVault Float → Result Error (List (MemoryEnvelope Float))
  unfolding inspect
  inspect_all now [] v = done []
  inspect_all now (id ∷ ids) v =
      and_then (inspect F host blob_threshold now id true v.store)
        λ memory. and_then (inspect_all now ids v) λ memories. done (memory ∷ memories)

  unfoldable pub memories_in_box :
      Float → Text → MemoryVault Float → Result Error (List (MemoryEnvelope Float))
  unfolding get_box inspect_all
  memories_in_box now box_id v = and_then (get_box box_id v) (λ box. inspect_all now box.1 v)

  -- the memory as `MemoryBox.remember` builds it, whose content hash is computed again
  unfoldable pub boxed :
      Float → BoxInfo Float → MemoryEnvelope Float → Result Error (MemoryEnvelope Float)
  unfolding from_dict to_dict box_scope
  boxed now info memory =
      from_dict F host now
        (record (to_dict memory) { scope = box_scope info memory.scope; content_hash = [] })

  abbrev pub remember_boxed :
      Float
      → BoxInfo Float
      → MemoryVault Float
      → Result Error (MemoryEnvelope Float)
      → MemoryVault Float × Result Error Text
  remember_boxed now info v (raised e) = (v, raised e)
  remember_boxed now info v (done scoped) = remember F setup now scoped (some info.id) true false v

  -- `MemoryBox.remember`, which does not ask whether the box is closed
  unfoldable pub remember_in_box :
      Float
      → BoxInfo Float
      → MemoryEnvelope Float
      → MemoryVault Float
      → MemoryVault Float × Result Error Text
  unfolding boxed remember
  remember_in_box now info memory v = remember_boxed now info v (boxed now info memory)

  abbrev pub remember_made :
      Float
      → BoxInfo Float
      → MemoryVault Float
      → Result Error (MemoryEnvelope Float)
      → MemoryVault Float × Result Error Text
  remember_made now info v (raised e) = (v, raised e)
  remember_made now info v (done memory) = remember_in_box now info memory v

  -- The scope of the options is the box's, and an empty provenance names the box.
  unfoldable pub remember_text :
      Float
      → BoxInfo Float
      → Text
      → Options Float
      → MemoryVault Float
      → MemoryVault Float × Result Error Text
  unfolding Create.text remember_in_box is_empty
  remember_text now info content o v =
      let provenance =
        if is_empty o.provenance
        then (codes "source", Json.text (codes "memory_box")) ∷ []
        else o.provenance in
      remember_made now info v
        (Create.text F host now content (record o { scope = info.scope; provenance = provenance }))
