-- ===== src/Engram.antt =====
-- engram.py: the hash of a query's last words picks a bucket, and the bucket's entries remember
-- the memory ids that the query recalled.
pub mod Hasher
pub mod Buckets
pub mod Invariant
pub mod Recall
pub mod Purge
pub mod Runs
mod Tests
use agent_memory_living_memo.Prelude.{
  ℕ, zero, suc, ◌+◌, ◌-◌, ◌*◌, ◌%◌, Bool, true, false, not, Option, none, some, List, [], ◌∷◌, ◌++◌,
  map, Text, Text_eq, ℕ_eq, ◌==◌, contains, dedup, if◌then◌else◌, ltb, leb, length, filter_by,
  is_empty, take,
}
use agent_memory_living_memo.Prelude.Dict
use agent_memory_living_memo.Schema.{Dict}
use agent_memory_living_memo.Engram.Hasher.{NGramHasher, primary_index}

-- A query with the filters that it is asked under.
pub record Query (N : Type 0) : Type 0 where
  pub query : Text
  pub scope : Dict N
  pub tags : List Text

-- What the cache takes from its surroundings: `unicodedata.normalize("NFKC", ...)` followed by
-- strip and lower, the SHA-256 bytes of a token, SHA-256 over the JSON text of a query, `sorted` on
-- tags.
pub record Host (N : Type 0) : Type 0 where
  pub normalize : Text → Text
  pub token_digest : Text → List ℕ
  pub query_digest : Query N → Text
  pub sorted_tags : List Text → List Text

pub record EngramEntry (N : Type 0) : Type 0 where
  pub query_text : Text
  pub signature : Text
  pub memory_ids : List Text
  pub scope : Dict N
  pub tags : List Text
  pub hit_count : ℕ
  pub created_at : N
  pub last_access : N

pub record EngramCache (N : Type 0) : Type 0 where
  pub hasher : NGramHasher
  pub cache_threshold : ℕ
  pub max_memory_ids : ℕ
  pub entries : List (ℕ × List (EngramEntry N))
  pub query_counts : List (Text × ℕ)
  pub total_lookups : ℕ
  pub cache_hits : ℕ
  pub cache_misses : ℕ
  pub collision_rejections : ℕ
  pub auto_cached : ℕ

-- `none` is the ValueError of a threshold or a bound that is not positive.
unfoldable pub new_cache : {N : Type 0} → NGramHasher → ℕ → ℕ → Option (EngramCache N)
new_cache hasher cache_threshold max_memory_ids =
    if leb cache_threshold 0
    then none
    else if leb max_memory_ids 0
    then none
    else some (record {
      hasher = hasher;
      cache_threshold = cache_threshold;
      max_memory_ids = max_memory_ids;
      entries = [];
      query_counts = [];
      total_lookups = 0;
      cache_hits = 0;
      cache_misses = 0;
      collision_rejections = 0;
      auto_cached = 0;
    })

-- `[item for item in memory_ids if item != memory_id]`
abbrev pub without : Text → List Text → List Text
without memory_id = filter_by (λ item. not (item == memory_id))

module _ {N : Type 0} where
  unfoldable pub touch : N → EngramEntry N → EngramEntry N
  touch now e = record e { hit_count = e.hit_count + 1; last_access = now }

  -- The loop of `lookup`: the first entry with the signature, and the bucket with it touched.
  unfoldable pub touch_entry :
      N → Text → List (EngramEntry N) → Option (EngramEntry N × List (EngramEntry N))
  unfolding touch
  touch_entry now signature [] = none
  touch_entry now signature (e ∷ bucket) = elim (e.signature == signature) [
    | true ↦ some (e, touch now e ∷ bucket)
    | false ↦ elim (touch_entry now signature bucket) [
      | none ↦ none
      | some (found, rest) ↦ some (found, e ∷ rest)
    ]
  ]

  -- The loop of `cache`: the bucket with the first entry of that signature replaced.
  unfoldable pub replace_entry :
      EngramEntry N → List (EngramEntry N) → Option (List (EngramEntry N))
  replace_entry entry [] = none
  replace_entry entry (e ∷ bucket) = elim (e.signature == entry.signature) [
    | true ↦ some (entry ∷ bucket)
    | false ↦ elim (replace_entry entry bucket) [ none ↦ none | some rest ↦ some (e ∷ rest) ]
  ]

  abbrev pub bucket_at : ℕ → EngramCache N → List (EngramEntry N)
  bucket_at i c = elim (Dict.get i c.entries) [ none ↦ [] | some bucket ↦ bucket ]

  -- `query_counts[signature]`, which a Counter answers with 0 for a new key
  abbrev pub count_of : Text → EngramCache N → ℕ
  count_of signature c = elim (Dict.get signature c.query_counts) [ none ↦ 0 | some n ↦ n ]

  unfoldable pub strip_entry : Text → EngramEntry N → EngramEntry N
  unfolding contains filter_by
  strip_entry memory_id e =
      if contains e.memory_ids memory_id
      then record e { memory_ids = without memory_id e.memory_ids }
      else e

  -- One bucket of `invalidate_memory`: the entries that keep an id, and how many had the memory.
  unfoldable pub purge_bucket : Text → List (EngramEntry N) → List (EngramEntry N) × ℕ
  unfolding strip_entry is_empty
  purge_bucket memory_id [] = ([], 0)
  purge_bucket memory_id (e ∷ bucket) =
      let (kept, removed) = purge_bucket memory_id bucket in
      let e' = strip_entry memory_id e in
      (
        if is_empty e'.memory_ids then kept else e' ∷ kept,
        if contains e.memory_ids memory_id then removed + 1 else removed,
      )

  unfoldable pub purge :
      Text → List (ℕ × List (EngramEntry N)) → List (ℕ × List (EngramEntry N)) × ℕ
  unfolding purge_bucket
  purge memory_id [] = ([], 0)
  purge memory_id ((i, bucket) ∷ rest) =
      let (kept, removed) = purge_bucket memory_id bucket in
      let (others, more) = purge memory_id rest in
      (if is_empty kept then others else (i, kept) ∷ others, removed + more)

  unfoldable pub invalidate_memory : Text → EngramCache N → EngramCache N × ℕ
  unfolding purge
  invalidate_memory memory_id c =
      let (entries, removed) = purge memory_id c.entries in
      (record c { entries = entries }, removed)

  unfoldable pub clear : EngramCache N → EngramCache N
  clear c = record c {
    entries = [];
    query_counts = [];
    total_lookups = 0;
    cache_hits = 0;
    cache_misses = 0;
    collision_rejections = 0;
    auto_cached = 0;
  }

-- The counts that `stats` reports: entries, buckets and frequent queries.
pub record Stats : Type 0 where
  pub entries : ℕ
  pub buckets : ℕ
  pub frequent_queries : ℕ

module _ {N : Type 0} where
  unfoldable pub entry_count : List (ℕ × List (EngramEntry N)) → ℕ
  entry_count [] = 0
  entry_count ((i, bucket) ∷ rest) = length bucket + entry_count rest

  unfoldable pub stats : EngramCache N → Stats
  unfolding entry_count filter_by
  stats c = record {
    entries = entry_count c.entries;
    buckets = length c.entries;
    frequent_queries = length (filter_by (λ item. leb c.cache_threshold item.1) c.query_counts);
  }

module _ {N : Type 0} (host : Host N) where
  unfoldable pub signature : Query N → Text
  signature q =
      host.query_digest
        (record { query = host.normalize q.query; scope = q.scope; tags = host.sorted_tags q.tags })

  abbrev pub slot : EngramCache N → Query N → ℕ
  slot c q = primary_index host.normalize host.token_digest c.hasher q.query

  -- The rest of `lookup`, after the loop over the bucket.
  unfoldable pub finish_lookup :
      Query N
      → Option ℕ
      → EngramCache N
      → Option (EngramEntry N × List (EngramEntry N))
      → EngramCache N × List Text
  unfolding take is_empty Dict.get Dict.put
  finish_lookup q top_k c (some (e, touched)) = (
    record c {
      entries = Dict.put (slot c q) touched c.entries;
      total_lookups = c.total_lookups + 1;
      cache_hits = c.cache_hits + 1;
    },
    elim top_k [ none ↦ e.memory_ids | some k ↦ take k e.memory_ids ],
  )
  finish_lookup q top_k c none = (
    record c {
      total_lookups = c.total_lookups + 1;
      cache_misses = c.cache_misses + 1;
      collision_rejections =
          if is_empty (bucket_at (slot c q) c)
          then c.collision_rejections
          else c.collision_rejections + 1;
    },
    [],
  )

  -- `top_k` is None or a count.
  unfoldable pub lookup : N → Query N → Option ℕ → EngramCache N → EngramCache N × List Text
  unfolding touch_entry finish_lookup
  lookup now q top_k c =
      finish_lookup q top_k c (touch_entry now (signature q) (bucket_at (slot c q) c))

  abbrev pub new_entry : N → Query N → List Text → EngramEntry N
  new_entry now q memory_ids = record {
    query_text = q.query;
    signature = signature q;
    memory_ids = memory_ids;
    scope = q.scope;
    tags = host.sorted_tags q.tags;
    hit_count = 0;
    created_at = now;
    last_access = now;
  }

  -- The rest of `cache`, after the loop over the bucket.
  unfoldable pub finish_cache :
      ℕ → EngramEntry N → EngramCache N → Option (List (EngramEntry N)) → EngramCache N × Bool
  unfolding Dict.get Dict.put
  finish_cache i entry c (some replaced) =
      (record c { entries = Dict.put i replaced c.entries }, false)
  finish_cache i entry c none =
      (record c { entries = Dict.put i (bucket_at i c ++ entry ∷ []) c.entries }, true)

  unfoldable pub cache : N → Query N → List Text → EngramCache N → EngramCache N × Bool
  unfolding replace_entry finish_cache dedup take is_empty
  cache now q memory_ids c =
      let deduped = take c.max_memory_ids (dedup memory_ids) in
      let entry = new_entry now q deduped in
      if is_empty deduped
      then (c, false)
      else finish_cache (slot c q) entry c (replace_entry entry (bucket_at (slot c q) c))

  unfoldable pub record_result : N → Query N → List Text → EngramCache N → EngramCache N × Bool
  unfolding cache is_empty Dict.get Dict.put
  record_result now q memory_ids c =
      let n = count_of (signature q) c + 1 in
      let counted = record c { query_counts = Dict.put (signature q) n c.query_counts } in
      let (cached, created) = cache now q memory_ids counted in
      if is_empty memory_ids
      then (c, false)
      else if ltb n c.cache_threshold
      then (counted, false)
      else if created
      then (record cached { auto_cached = cached.auto_cached + 1 }, true)
      else (cached, false)
