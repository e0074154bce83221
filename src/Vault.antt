-- ===== src/Vault.antt =====
-- vault.py: the vault, which files a memory in the store, the graph, the knowledge graph, the ledger
-- and a box, one after the other. The parts have connections of their own, so that an error leaves
-- what the earlier parts have written. The task states beside them are a component of their own.
pub mod Boxes
pub mod Integrity
pub mod Order
pub mod Replay
mod Tests
use agent_memory_living_memo.Prelude.{
  ℕ, suc, max, Bool, true, false, not, ◌&&◌, Option, none, some, List, [], ◌∷◌, ◌++◌, Text, Text_eq,
  codes, ◌==◌, filter_by, any_of, if◌then◌else◌,
}
use agent_memory_living_memo.Prelude.Dict
use agent_memory_living_memo.Prelude.Floats.{Floats}
use agent_memory_living_memo.Prelude.Results.{Result, raised, done}
use agent_memory_living_memo.Schema.{Dict, MemoryEnvelope}
use agent_memory_living_memo.Schema.Envelope.{EnvelopeDict, to_dict, from_dict}
use agent_memory_living_memo.Schema.Host.{Error, Host}
use agent_memory_living_memo.Schema.Host.Error.{value_error, key_error}
use agent_memory_living_memo.Schema.Values.{Json}
use agent_memory_living_memo.Mobius.{MobiusIndex, AddressMaterial}
use agent_memory_living_memo.Graph
use agent_memory_living_memo.Graph.{GraphRow, TemporalRelation}
use agent_memory_living_memo.Facts
use agent_memory_living_memo.Facts.{FactRecord, FactKey, Conflict, NewFact, Ledger, add_fact}
use agent_memory_living_memo.Knowledge.{KnowledgeGraph, KnowledgeAssertion, Digests}
use agent_memory_living_memo.Knowledge.Queries.{index_memory, index_fact}
use agent_memory_living_memo.Store
use agent_memory_living_memo.Store.{TemporalStore, clear_indexes}

-- What the vault's parts are given: the host, the threshold of the store, the digests, the grid of
-- addresses, `extraction.py`, as the facts that it finds in a memory, the text of the JSON of a memory
-- in the log, and what JSON reads from a line: `none` is an error, or a value that is no dictionary.
pub record Setup (F : Floats) : Type 0 where
  pub host : Host F.Float
  pub blob_threshold : ℕ
  pub address_digest : AddressMaterial F.Float → List ℕ
  pub grid : MobiusIndex
  pub fact_digest : FactKey F.Float → Text
  pub digests : Digests F.Float
  pub extract : MemoryEnvelope F.Float → List (NewFact F.Float)
  pub line_text : MemoryEnvelope F.Float → Text
  pub loads_line : Text → Option (EnvelopeDict F.Float)

-- a row of `boxes`
pub record BoxInfo (N : Type 0) : Type 0 where
  pub id : Text
  pub name : Text
  pub scope : Dict N
  pub created_at : N
  pub closed_at : Option N
  pub state : Text

-- a row of `box_memories`
pub record BoxMemory : Type 0 where
  pub box_id : Text
  pub memory_id : Text
  pub sequence : ℕ

-- The knowledge graph has the table of the graph that all parts share.
pub record MemoryVault (N : Type 0) : Type 0 where
  pub store : TemporalStore N
  pub knowledge : KnowledgeGraph N
  pub facts : List (Text × FactRecord N)
  pub fact_conflicts : List (Conflict N)
  pub boxes : List (Text × BoxInfo N)
  pub box_memories : List BoxMemory

-- SELECT COALESCE(MAX(sequence), 0) ... WHERE box_id = ?
unfoldable pub last_sequence : Text → List BoxMemory → ℕ
last_sequence box_id [] = 0
last_sequence box_id (row ∷ rows) =
    let rest = last_sequence box_id rows in
    if row.box_id == box_id then max row.sequence rest else rest

-- INSERT OR IGNORE INTO box_memories
unfoldable pub file_memory : Text → Text → List BoxMemory → List BoxMemory
unfolding last_sequence any_of
file_memory box_id memory_id rows =
    if any_of (λ row. (row.box_id == box_id) && (row.memory_id == memory_id)) rows
    then rows
    else rows
      ++ record {
        box_id = box_id;
        memory_id = memory_id;
        sequence = suc (last_sequence box_id rows);
      }
        ∷ []

module _ (F : Floats) (setup : Setup F) where
  open F use {Float}
  open setup use {host, blob_threshold, address_digest, grid, fact_digest, digests, extract}

  abbrev pub with_graph : List (GraphRow Float) → MemoryVault Float → MemoryVault Float
  with_graph rows v = record v { knowledge = record v.knowledge { graph = rows } }

  abbrev pub ledger_of : MemoryVault Float → Ledger Float
  ledger_of v = record { facts = v.facts; conflicts = v.fact_conflicts; graph = v.knowledge.graph }

  abbrev pub with_ledger : Ledger Float → MemoryVault Float → MemoryVault Float
  with_ledger l v = record (with_graph l.graph v) { facts = l.facts; fact_conflicts = l.conflicts }

  -- `add_fact` of a ledger that has a knowledge graph, from the stored fact on
  abbrev pub mirror_fact :
      MemoryVault Float
      → Ledger Float × Option (FactRecord Float)
      → MemoryVault Float × Result Error (Unit {0})
  mirror_fact v (l, none) = (with_ledger l v, raised value_error)
  mirror_fact v (l, some fact) =
      let v' = with_ledger l v in
      let indexed : KnowledgeGraph Float × Result Error (KnowledgeAssertion Float) =
        index_fact F host.lower digests fact v'.knowledge in
      (
        record v' { knowledge = indexed.0 },
        elim indexed.1 [ raised e ↦ raised e | done a ↦ done tt ],
      )

  -- the rest of a call, unless the part before it raised
  abbrev pub unless_raised :
      {A : Type 0}
      → MemoryVault Float × Result Error (Unit {0})
      → (MemoryVault Float → MemoryVault Float × Result Error A)
      → MemoryVault Float × Result Error A
  unless_raised (v, raised e) next = (v, raised e)
  unless_raised (v, done u) next = next v

  -- the loop of `_extract_facts`
  unfoldable pub add_facts :
      List (NewFact Float) → MemoryVault Float → MemoryVault Float × Result Error (Unit {0})
  unfolding add_fact index_fact
  add_facts [] v = (v, done tt)
  add_facts (fact ∷ facts) v =
      unless_raised (mirror_fact v (add_fact F host.lower fact_digest fact (ledger_of v)))
        (add_facts facts)

  -- `self.graph.index_memory(memory)`
  unfoldable pub index_graph :
      MemoryEnvelope Float → MemoryVault Float → MemoryVault Float × Result Error (Unit {0})
  unfolding Graph.index_memory
  index_graph memory v =
      let indexed : List (GraphRow Float) × Option (List (TemporalRelation Float)) =
        Graph.index_memory F host.lower memory v.knowledge.graph in
      (
        with_graph indexed.0 v,
        elim indexed.1 [ none ↦ raised value_error | some relations ↦ done tt ],
      )

  -- `self.knowledge.index_memory(memory)`
  unfoldable pub index_knowledge :
      MemoryEnvelope Float → MemoryVault Float → MemoryVault Float × Result Error (Unit {0})
  unfolding index_memory
  index_knowledge memory v =
      let indexed : KnowledgeGraph Float × Result Error (List (KnowledgeAssertion Float)) =
        index_memory F host.lower digests memory v.knowledge in
      (
        record v { knowledge = indexed.0 },
        elim indexed.1 [ raised e ↦ raised e | done as' ↦ done tt ],
      )

  abbrev pub filed : Option Text → Text → MemoryVault Float → MemoryVault Float
  filed none memory_id v = v
  filed (some box_id) memory_id v = record v {
    box_memories = file_memory box_id memory_id v.box_memories;
  }

  -- the parts after the store, in their order
  unfoldable pub index_parts :
      MemoryEnvelope Float → Bool → MemoryVault Float → MemoryVault Float × Result Error (Unit {0})
  unfolding index_graph index_knowledge add_facts
  index_parts memory extract_facts v = unless_raised (index_graph memory v) λ v₁.
      unless_raised (index_knowledge memory v₁)
        λ v₂. if extract_facts then add_facts (extract memory) v₂ else (v₂, done tt)

  abbrev pub after_store :
      MemoryEnvelope Float
      → Option Text
      → Bool
      → MemoryVault Float
      → TemporalStore Float × Result Error Text
      → MemoryVault Float × Result Error Text
  after_store memory box_id extract_facts v (s, raised e) = (record v { store = s }, raised e)
  after_store memory box_id extract_facts v (s, done memory_id) =
      unless_raised (index_parts memory extract_facts (record v { store = s }))
        (λ v'. (filed box_id memory_id v', done memory_id))

  -- The vault after the call, and the memory's id or the error that was raised.
  unfoldable pub remember :
      Float
      → MemoryEnvelope Float
      → Option Text
      → Bool
      → Bool
      → MemoryVault Float
      → MemoryVault Float × Result Error Text
  unfolding Store.remember index_parts file_memory
  remember now memory box_id append_log extract_facts v =
      after_store memory box_id extract_facts v
        (Store.remember F host blob_threshold address_digest grid now memory append_log v.store)
