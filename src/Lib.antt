-- ===== src/Lib.antt =====
-- The memory engine of the repository, engines/living_memoryv2/src/living_memoryv2: a local store of
-- memory envelopes, with the indexes that find them again and the components that keep facts, task
-- states and proposals beside them. The paths below are of that directory.
--
-- How the parts interact. `vault.py` has an envelope (`schema.py`) stored and placed at an address of
-- a strip (`store.py`, `mobius.py`), its relations indexed (`graph.py`), its entities and frames
-- (`knowledge.py`), its facts extracted, and its id filed in a box, in this order; `facts.py` keeps a
-- ledger of facts that supersede each other and mirrors it in the graph and the knowledge graph;
-- `recall.py` merges what the cache of hot queries (`engram.py`), the store, the addresses and the
-- graph propose for a query, and reports its results to the cache; `context.py` cuts the texts of the
-- results to a budget of tokens; `lifecycle.py` says how a memory's state changes its score; `agents.py` files what agents propose
-- until a reviewer has a vault remember it; `task_state.py` keeps checkpoints of long tasks.
--
-- Which file models which part. A method of a store is a function from the store's state to its
-- next state and its result; an exception is a value, and the state beside it is the one that the
-- exception leaves behind.
--   Prelude    text as code points, lists, dictionaries, sorting, floats, integers and results.
--   Schema     `schema.py`: envelopes and modalities with their constructors, hashes, `to_dict` and
--              `from_dict`, and the values of JSON.
--   Store      `store.py`: `TemporalStore` as its three tables, its blobs and its log; Store/Blobs
--              has the files, Store/Search the queries.
--   Knowledge  `knowledge.py`: `KnowledgeGraph` as its tables of entities and frames, and what it
--              answers.
--   Vault      `vault.py`: `MemoryVault` as the states of its parts and the tables of boxes;
--              Vault/Integrity has `verify_integrity` and `rebuild_indexes`.
--   Recall     `recall.py`: Recall/Pipeline has `recall`, Recall/Layers and Recall/Seeds its layers,
--              the file itself `_merge` and the ranking.
--   TaskState  `task_state.py`: `TaskState`, and `TaskStateStore` as a table of states by id.
--   Agents     `agents.py`: `ProposalStore` as a table of proposals by id, and its vault, of which
--              only `remember` and the sealing of an envelope are used, as an interface.
--   Facts      `facts.py`: `FactLedger` as its two tables and the graph's.
--   Graph      `graph.py`: `GraphStore` as the list of its rows; Graph/Walk has
--              `walk_related_memory_ids`, Graph/Nodes `relation_nodes_for_memory_ids`.
--   Mobius     `mobius.py`: `MobiusIndex`, a function for each method; `_wrap` is `wrap`.
--   Engram     `engram.py`: `NGramHasher` and `EngramCache`. Engram/Recall and Engram/Purge describe
--              the cache as a map from a slot and a signature to memory ids.
--   Lifecycle  `lifecycle.py`: `LifecycleView` and its scores; Lifecycle/Metadata has
--              `lifecycle_for`.
--   Governance `governance.py`: the labels of a memory and the text that is withheld.
--   Context    `context.py`: `ContextAssembler`, whose texts are those that Governance lets through.
--   Answerability  `answerability.py`: the assessment of the scores of what was found.
--   Scoring    `scoring.py`: `score_memory_candidate` and its features.
--
-- Tables of SQLite are lists of rows. INSERT OR REPLACE is an update by the key, INSERT OR IGNORE
-- looks for a row of the same UNIQUE columns, of which NULLs are never the same, ORDER BY is a stable
-- sort, and a column of JSON text holds the value that it decodes to. The order of the rows of an
-- unordered query is a parameter.
--
-- Bounds and fuel. Numbers are natural numbers and integers of any size, as in Python; a checkpoint
-- number that does not fit into SQLite's 64 bits is refused when it is saved. Limits are not
-- negative. All loops run over lists or ranges and are structural recursion; the walk over the
-- graph recurses on its number of hops, as the source's loop does. No definition takes fuel.
--
-- Parameters. Hashes, Unicode normalisation, `str.lower`, JSON texts and bytes (`Schema.Host`),
-- `sorted` on tags, `int`, `float`, `str` and `dict` of values that are no text
-- (`Lifecycle.Metadata.Convert`), what the text index of SQLite matches (`Store.Search.Sqlite`),
-- the extraction of facts from a text, the JSON text of a line of the log (`Vault.Setup`), the
-- square root, the clock and the arithmetic of floats are arguments of the definitions that use
-- them. A dictionary that is written as JSON and read back is the same dictionary. Proofs assume of
-- floats only that they are ordered (`IsOrder`), which is so of all but NaN.
--
-- Not modelled: in the modelled files, the migration of old tables, `answerable_subgraphs`, the
-- errors of values that a column or a conversion refuses (a provenance source that is a list, an
-- infinite counter, a None where a number is read, bytes in a proposal), the closing of
-- connections, the traces of lifecycle and governance, the metadata of a packet of evidence, and
-- the functions that only copy fields into dictionaries; of the directory, the files not named
-- above, which are the server (`mcp_server.py`), the rendering of results (`sif.py`),
-- `tool_curriculum.py`, `calibration.py`, `consolidation.py`, the sources of memories and facts
-- (`ingest.py`, `extraction.py`, the connectors) and `benchmarks.py`; of the repository, the Go
-- services in internal and cmd, which are adapters around this engine, and the clients in sdk.
pub mod Prelude
pub mod Schema
pub mod Mobius
pub mod Engram
pub mod TaskState
pub mod Graph
pub mod Facts
pub mod Lifecycle
pub mod Agents
pub mod Answerability
pub mod Scoring
pub mod Governance
pub mod Store
pub mod Knowledge
pub mod Vault
pub mod Recall
pub mod Context
