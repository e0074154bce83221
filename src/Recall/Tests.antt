-- ===== src/Recall/Tests.antt =====
-- Runs of the recall, and its theorems at concrete inputs.
use agent_memory_living_memo.Prelude.{
  ℕ, true, ◌≡◌, refl, Option, none, some, List, [], ◌∷◌, Text, Text_eq, text_eq, codes, map,
}
use agent_memory_living_memo.Prelude.Floats.{cents, cents-IsOrder}
use agent_memory_living_memo.Prelude.Int.{ℤ, pos}
use agent_memory_living_memo.Schema.{MemoryEnvelope}
use agent_memory_living_memo.Schema.Samples.{note}
use agent_memory_living_memo.Schema.Values.{Json, num}
use agent_memory_living_memo.Lifecycle.Metadata.{Convert}
use agent_memory_living_memo.Prelude.Results.{Result, raised, done}
use agent_memory_living_memo.Mobius.{MobiusAddress, address_eq}
use agent_memory_living_memo.Schema.Envelope.{to_dict, from_dict}
use agent_memory_living_memo.Schema.Host.{Error}
use agent_memory_living_memo.Schema.Samples.{toy}
use agent_memory_living_memo.Store.{TemporalStore}
use agent_memory_living_memo.Store.Search.{Sqlite}
use agent_memory_living_memo.Recall.{RecallResult}
use agent_memory_living_memo.Recall.Layers.{RecallQuery, RecallPipeline}
use agent_memory_living_memo.Recall.Pipeline.{Setup, recall}
use agent_memory_living_memo.Recall.Found.{AreFound, recall-AreFound}

abbrev number_of : Json ℕ → Option ℕ
number_of (num n) = some n
number_of _ = none

abbrev whole_of : Json ℕ → Option ℤ
whole_of (num n) = some (pos n)
whole_of _ = none

-- Conversions that know numbers only.
abbrev plain : Convert ℕ
plain = record {
  str = λ v. codes "value";
  float = number_of;
  int = whole_of;
  int_of_float = whole_of;
}

abbrev lower : Text → Text
lower t = t

-- A memory of another project.
abbrev elsewhere : MemoryEnvelope ℕ
elsewhere = record note {
  id = codes "mem_2";
  importance = 100;
  scope = (codes "project", Json.text (codes "r")) ∷ [];
}

abbrev place : MobiusAddress
place = record { iu = 3; iv = 9; iw = 3; region = codes "decision" }

abbrev store : TemporalStore ℕ
store = record {
  memories = (codes "mem_1", note) ∷ (codes "mem_2", elsewhere) ∷ [];
  memory_fts = (codes "mem_1", codes "tabs") ∷ (codes "mem_2", codes "tabs") ∷ [];
  mobius_index = (codes "mem_1", place) ∷ (codes "mem_2", place) ∷ [];
  blobs = [];
  log = [];
}

abbrev first_two : Sqlite
first_two = record {
  fts_available = true;
  fts_match = λ expression rows. some (map (λ row. row.0) rows);
  fts_like = λ pattern rows. none;
  scan = λ rows. rows;
}

abbrev setup : Setup cents
setup = record {
  convert = plain;
  sqrt = λ x. x;
  engram_host = record {
    normalize = λ text. text;
    token_digest = λ text. text;
    query_digest = λ q. q.query;
    sorted_tags = λ tags. tags;
  };
  sqlite = first_two;
  scan = λ rows. rows;
  blob_threshold = 400;
  grid = record { u_size = 64; v_size = 32; w_size = 16 };
}

abbrev asked : RecallQuery ℕ
asked = record {
  query = codes "tabs";
  scope = (codes "project", Json.text (codes "p")) ∷ [];
  tags = codes "style" ∷ [];
  top_k = 2;
  use_engram = true;
  at_time = none;
  graph_hops = 1;
}

abbrev pipeline : RecallPipeline ℕ
pipeline = record {
  store = store;
  graph_store = none;
  engram_cache = none;
  critical_threshold = 95;
}

abbrev outcome : Result Error (List (RecallResult ℕ))
outcome = (recall cents toy setup 7 asked pipeline).1

abbrev results : List (RecallResult ℕ)
results = elim outcome [ raised e ↦ [] | done found ↦ found ]

only_the_own_project : map (λ r. r.memory.id) results ≡ codes "mem_1" ∷ []
unfolding recall text_eq from_dict to_dict address_eq
only_the_own_project = refl

proposed_by :
    map (λ r. r.why_retrieved) results ≡ (codes "fts" ∷ codes "mobius" ∷ codes "lexical" ∷ []) ∷ []
unfolding recall text_eq from_dict to_dict address_eq
proposed_by = refl

outcome-done : outcome ≡ done results
unfolding recall text_eq from_dict to_dict address_eq
outcome-done = refl

recall-AreFound_example : AreFound cents toy setup 7 asked pipeline results
recall-AreFound_example =
    recall-AreFound cents toy setup 7 asked pipeline cents-IsOrder outcome-done
