-- ===== src/Vault/Tests.antt =====
-- A vault with one memory in a box, rebuilt from its log.
use agent_memory_living_memo.Prelude.{
  ℕ, contains, is_empty, if◌then◌else◌, true, false, none, some, [], ◌∷◌, Text, Text_eq, ◌==◌,
  codes, text_eq, replicate, ◌≡◌, refl,
}
use agent_memory_living_memo.Prelude.Dict
use agent_memory_living_memo.Prelude.Floats.{cents}
use agent_memory_living_memo.Prelude.Results.{done, raised}
use agent_memory_living_memo.Prelude.Strings.{strip}
use agent_memory_living_memo.Mobius.{MobiusIndex, address_for}
use agent_memory_living_memo.Schema.{MemoryEnvelope}
use agent_memory_living_memo.Schema.Envelope.{from_dict, to_dict, has_bytes}
use agent_memory_living_memo.Schema.Host.Error.{value_error, key_error}
use agent_memory_living_memo.Schema.Samples.{note, text_part, relation, toy}
use agent_memory_living_memo.Store.Blobs.{externalize_items}
use agent_memory_living_memo.Store.Search.{add_term}
use agent_memory_living_memo.Vault.{Setup, BoxInfo, MemoryVault, file_memory, remember}
use agent_memory_living_memo.Vault.Boxes.{memory_ids_of, open_box, get_box}
use agent_memory_living_memo.Vault.Integrity.{verify_integrity, rebuild_indexes}
use agent_memory_living_memo.Vault.Order.{IsOrdered, file_memory-ids}
use agent_memory_living_memo.Vault.Replay.{IsStable, last_line, rebuild_indexes-get}

abbrev grid : MobiusIndex
grid = record { u_size = 64; v_size = 32; w_size = 16 }

abbrev memory : MemoryEnvelope ℕ
memory = record note { modalities = record text_part { sha256 = some (replicate 64 97) } ∷ [] }

abbrev setup : Setup cents
setup = record {
  host = toy;
  blob_threshold = 400;
  address_digest = λ m. replicate 32 3;
  grid = grid;
  fact_digest = λ k. codes "f";
  digests = record { entity = λ name scope. name; assertion = λ key. key.object };
  extract = λ m. [];
  line_text = λ m. m.id;
  loads_line = λ line. if line == codes "mem_1" then some (to_dict memory) else none;
}

abbrev bare : MemoryVault ℕ
bare = record {
  store = record { memories = []; memory_fts = []; mobius_index = []; blobs = []; log = [] };
  knowledge = record { entities = []; assertions = []; conflicts = []; graph = [] };
  facts = [];
  fact_conflicts = [];
  boxes = [];
  box_memories = [];
}

abbrev info : BoxInfo ℕ
info = record {
  id = codes "box_1";
  name = codes "first";
  scope = [];
  created_at = 3;
  closed_at = none;
  state = codes "open";
}

abbrev kept : MemoryVault ℕ
kept = (remember cents setup 0 memory (some (codes "box_1")) true false bare).0

opened_box : (open_box (codes "box_1") 3 (codes "first") [] bare).1 ≡ done info
unfolding open_box
opened_box = refl

unknown_box : get_box (codes "box_2") bare ≡ raised key_error
unfolding get_box
unknown_box = refl

in_order :
    memory_ids_of (codes "b") (
      file_memory (codes "b") (codes "m1") (
        file_memory
          (codes "c")
          (codes "m1")
          (file_memory (codes "b") (codes "m2") (file_memory (codes "b") (codes "m1") []))))
    ≡ codes "m1" ∷ codes "m2" ∷ []
unfolding memory_ids_of file_memory text_eq
in_order = refl

-- The relation is refused by the graph after the store has written the memory and its line.
half_remembered :
    let bad : MemoryEnvelope ℕ = record memory {
      relations = record relation { subject = [] } ∷ [];
    } in
    ((remember cents setup 0 bad none true false bare).1 ≡ raised value_error)
    × ((remember cents setup 0 bad none true false bare).0.store.log ≡ bad ∷ [])
unfolding remember text_eq from_dict to_dict address_for
half_remembered = (refl, refl)

sound_log :
    verify_integrity cents setup 0 kept
    ≡ record { checked = 1; tampered = codes "mem_1" ∷ []; invalid_lines = [] }
unfolding verify_integrity remember text_eq from_dict to_dict address_for
sound_log = refl

file_memory-ids_example :
    (memory_ids_of (codes "b") (file_memory (codes "b") (codes "m") []) ≡ codes "m" ∷ [])
    × ((other : Text)
        → (codes "b" == other) ≡ false
        → memory_ids_of other (file_memory (codes "b") (codes "m") []) ≡ memory_ids_of other [])
    × IsOrdered (file_memory (codes "b") (codes "m") [])
unfolding add_term memory_ids_of
file_memory-ids_example = file_memory-ids (codes "b") (codes "m") [] (λ box. tt)

memory-IsStable : IsStable cents setup memory
unfolding from_dict to_dict externalize_items has_bytes address_for text_eq contains strip is_empty
memory-IsStable = record {
  unbroken = (refl, (refl, (refl, (refl, (refl, tt)))));
  filled = refl;
  loaded = refl;
  again = λ now. refl;
  inline = λ files. refl;
  no_bytes = refl;
  address = record { iu = 3; iv = 9; iw = 3; region = codes "decision" };
  placed = refl;
}

rebuild_indexes-get_example :
    Dict.get (codes "mem_1") (rebuild_indexes cents setup 5 kept).0.store.memories
    ≡ Dict.get (codes "mem_1") kept.store.memories
unfolding remember rebuild_indexes text_eq from_dict to_dict address_for last_line
rebuild_indexes-get_example =
    rebuild_indexes-get cents setup 5 kept (memory-IsStable, tt) (λ id. refl) refl (codes "mem_1")
