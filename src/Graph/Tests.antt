-- ===== src/Graph/Tests.antt =====
-- Runs of the graph store, and the theorems about it at concrete inputs.
use agent_memory_living_memo.Prelude.{
  ℕ, ◌≤◌, ◌≡◌, refl, none, some, List, [], ◌∷◌, All, Text, Text_eq, text_eq, codes, Distinct,
  length,
}
use agent_memory_living_memo.Prelude.Floats.{cents, cents-IsOrder}
use agent_memory_living_memo.Schema.Samples.{note}
use agent_memory_living_memo.Graph.{
  TemporalRelation, GraphRow, Filter, add_relation, row_of, index_memory,
}
use agent_memory_living_memo.Graph.Rows.{IsTable, index_memory-IsTable}
use agent_memory_living_memo.Graph.Walk.{Walk, graph_names_of, walk_related_memory_ids}
use agent_memory_living_memo.Graph.Reach.{Owns, walk_sound}

abbrev lower : Text → Text
lower t = t

abbrev uses : TemporalRelation ℕ
uses = record {
  subject = codes "p";
  predicate = codes "uses";
  object = codes "t";
  memory_id = codes "m1";
  graph_name = codes "temporal";
  valid_from = some 10;
  valid_to = none;
  confidence = 80;
  source = none;
  created_at = 5;
}

abbrev one_row : List (GraphRow ℕ)
one_row = row_of cents lower uses ∷ []

abbrev two_rows : List (GraphRow ℕ)
two_rows = row_of cents lower uses ∷ row_of cents lower uses ∷ []

-- a relation that is open on a side is stored twice
added_twice : add_relation cents lower uses none one_row ≡ some (two_rows, uses)
unfolding add_relation text_eq
added_twice = refl

empty-IsTable : IsTable cents lower []
empty-IsTable = record { each = tt; apart = tt }

index_memory-IsTable_example : IsTable cents lower (index_memory cents lower note []).0
index_memory-IsTable_example = index_memory-IsTable cents lower note [] cents-IsOrder empty-IsTable

abbrev at_20 : Filter ℕ
at_20 = record {
  subject = some (codes " p");
  predicate = none;
  object = none;
  graph_name = none;
  at_time = some 20;
  limit = 1;
}

abbrev scan : List (GraphRow ℕ) → List (GraphRow ℕ)
scan rows = rows

abbrev walk : Walk ℕ
walk = record { limit = 3; max_hops = 2; at_time = some 20; graph_names = [] }

walked :
    walk_related_memory_ids cents lower scan (codes "t" ∷ []) walk two_rows ≡ some (codes "m1" ∷ [])
unfolding walk_related_memory_ids text_eq
walked = refl

walk_sound_example :
    All (Owns cents lower scan two_rows (some 20) []) (codes "m1" ∷ [])
    × Distinct (codes "m1" ∷ [])
    × (length (codes "m1" ∷ []) ≤ 3)
unfolding graph_names_of
walk_sound_example =
    walk_sound cents lower scan (codes "t" ∷ []) walk two_rows [] (codes "m1" ∷ []) (λ Q rows h. h)
      refl walked
