-- ===== src/Engram/Tests.antt =====
-- Runs of the cache, and the theorems about it at concrete inputs.
use agent_memory_living_memo.Prelude.{
  ℕ, ◌≡◌, refl, false, some, none, List, [], ◌∷◌, Text, Text_eq, text_eq, codes, contains,
}
use agent_memory_living_memo.Engram.Hasher.{NGramHasher, primary_index}
use agent_memory_living_memo.Engram.{
  EngramCache, Query, Host, new_cache, lookup, cache, record_result, invalidate_memory, signature,
  slot, count_of,
}
use agent_memory_living_memo.Engram.Invariant.{IsValid, new_cache-IsValid}
use agent_memory_living_memo.Engram.Recall.{
  view, shown, stored, lookup-cache, record_result-remembered,
}
use agent_memory_living_memo.Engram.Purge.{left, invalidate_memory-view, lookup-invalidate_memory}
use agent_memory_living_memo.Engram.Runs.{ask, store, report, forget, run, run-IsValid}

abbrev host : Host ℕ
host = record {
  normalize = λ t. t;
  token_digest = λ t. t;
  query_digest = λ q. q.query;
  sorted_tags = λ tags. tags;
}

abbrev hasher : NGramHasher
hasher = record { table_size = 7; n_heads = 3; ngram_orders = 2 ∷ 3 ∷ [] }

abbrev fresh : EngramCache ℕ
fresh = record {
  hasher = hasher;
  cache_threshold = 2;
  max_memory_ids = 2;
  entries = [];
  query_counts = [];
  total_lookups = 0;
  cache_hits = 0;
  cache_misses = 0;
  collision_rejections = 0;
  auto_cached = 0;
}

fresh-IsValid : IsValid fresh
unfolding new_cache
fresh-IsValid = (new_cache-IsValid hasher 2 2 refl).0

abbrev q : Query ℕ
q = record { query = codes "use tabs"; scope = []; tags = [] }

abbrev ids : List Text
ids = codes "m1" ∷ codes "m2" ∷ codes "m1" ∷ codes "m3" ∷ []

abbrev filled : EngramCache ℕ
filled = (cache host 5 q ids fresh).0

-- the second report of a query caches its ids, once each and two at most
second_report :
    (lookup host 9 q none (run host (report 1 q ids ∷ report 2 q ids ∷ []) fresh)).1
    ≡ codes "m1" ∷ codes "m2" ∷ []
unfolding lookup run text_eq signature primary_index
second_report = refl

first_report : (lookup host 9 q none (run host (report 1 q ids ∷ []) fresh)).1 ≡ []
unfolding lookup run text_eq signature primary_index
first_report = refl

lookup-cache_example :
    (lookup host 9 q (some 1) filled).1 ≡ shown (some 1) (some (stored host fresh ids))
unfolding cache
lookup-cache_example = lookup-cache host 5 9 q ids (some 1) fresh refl

-- The second report of the query reaches the threshold, at the query's own slot and signature.
record_result-remembered_example :
    let once = (record_result host 1 q ids fresh).0 in
    let own = signature host q in
    (count_of own (record_result host 5 q ids once).0 ≡ 2)
    × (view (record_result host 5 q ids once).0 (slot host once q) own
        ≡ some (codes "m1" ∷ codes "m2" ∷ []))
unfolding record_result text_eq signature primary_index view
record_result-remembered_example =
    record_result-remembered host 5 q ids (record_result host 1 q ids fresh).0
      (slot host (record_result host 1 q ids fresh).0 q) (signature host q)

run-IsValid_example :
    IsValid (run host (store 5 q ids ∷ ask 9 q none ∷ forget (codes "m1") ∷ []) fresh)
run-IsValid_example =
    run-IsValid host (store 5 q ids ∷ ask 9 q none ∷ forget (codes "m1") ∷ []) fresh fresh-IsValid

filled-IsValid : IsValid filled
unfolding run
filled-IsValid = run-IsValid host (store 5 q ids ∷ []) fresh fresh-IsValid

invalidate_memory-view_example :
    view (invalidate_memory (codes "m1") filled).0 3 (codes "x")
    ≡ left (codes "m1") (view filled 3 (codes "x"))
invalidate_memory-view_example =
    invalidate_memory-view (codes "m1") filled 3 (codes "x") filled-IsValid

lookup-invalidate_memory_example :
    contains (lookup host 9 q none (invalidate_memory (codes "m1") filled).0).1 (codes "m1") ≡ false
lookup-invalidate_memory_example =
    lookup-invalidate_memory host 9 q none (codes "m1") filled filled-IsValid
