-- ===== src/Engram/Runs.antt =====
-- Any sequence of calls on one cache.
use agent_memory_living_memo.Prelude.{ℕ, Option, List, [], ◌∷◌, Text}
use agent_memory_living_memo.Engram.{
  EngramCache, Query, Host, lookup, cache, record_result, invalidate_memory, clear,
}
use agent_memory_living_memo.Engram.Invariant.{
  IsValid, lookup-IsValid, cache-IsValid, record_result-IsValid, clear-IsValid,
}
use agent_memory_living_memo.Engram.Purge.{invalidate_memory-IsValid}

pub data Call (N : Type 0) : Type 0 where
  ask : N → Query N → Option ℕ → Call N
  store : N → Query N → List Text → Call N
  report : N → Query N → List Text → Call N
  forget : Text → Call N
  reset : Call N

module _ {N : Type 0} (host : Host N) where
  -- the cache that a call leaves behind
  unfoldable pub step : Call N → EngramCache N → EngramCache N
  unfolding lookup cache record_result invalidate_memory clear
  step (ask now q top_k) c = (lookup host now q top_k c).0
  step (store now q ids) c = (cache host now q ids c).0
  step (report now q ids) c = (record_result host now q ids c).0
  step (forget m) c = (invalidate_memory m c).0
  step reset c = clear c

  unfoldable pub run : List (Call N) → EngramCache N → EngramCache N
  unfolding step
  run [] c = c
  run (call ∷ calls) c = run calls (step call c)

  step-IsValid : (call : Call N) (c : EngramCache N) → IsValid c → IsValid (step call c)
  unfolding step
  step-IsValid (ask now q top_k) c v = lookup-IsValid host now q top_k c v
  step-IsValid (store now q ids) c v = cache-IsValid host now q ids c v
  step-IsValid (report now q ids) c v = record_result-IsValid host now q ids c v
  step-IsValid (forget m) c v = invalidate_memory-IsValid m c v
  step-IsValid reset c v = clear-IsValid c

  -- Whatever is called, a valid cache stays valid: every lookup is counted as a hit or a miss, a
  -- bucket has one entry for a signature, and an entry holds some ids, none twice, within the bound.
  pub run-IsValid : (calls : List (Call N)) (c : EngramCache N) → IsValid c → IsValid (run calls c)
  unfolding run
  run-IsValid [] c v = v
  run-IsValid (call ∷ calls) c v = run-IsValid calls (step call c) (step-IsValid call c v)
