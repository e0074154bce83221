-- ===== src/Engram/Invariant.antt =====
-- What holds of the cache at all times, and that every method keeps it.
use agent_memory_living_memo.Prelude.{
  ℕ, ◌+◌, ◌≤◌, ◌<◌, ◌≡◌, arith, false, inl, inr, Bool-cases, Option, none, some, Option-cases, List,
  [], ◌∷◌, ◌++◌, All, All-append, Text, Text_eq, ℕ_eq, Distinct, is_empty, length, length-take-le,
  take, dedup, dedup-Distinct, take-Distinct, ltb,
}
use agent_memory_living_memo.Prelude.Dict
use agent_memory_living_memo.Engram.Hasher.{NGramHasher}
use agent_memory_living_memo.Engram.{
  EngramEntry, EngramCache, Query, Host, touch, touch_entry, replace_entry, clear, new_cache,
  lookup, finish_lookup, cache, finish_cache, record_result, new_entry, signature, slot, bucket_at,
  count_of,
}
use agent_memory_living_memo.Engram.Buckets.{
  signatures, Touched, touch_entry-Touched, Replaced, replace_entry-Replaced,
  signatures-append-Distinct, touch_entry-All, replace_entry-All, AllTouched, AllReplaced,
}

-- An entry holds some ids, none twice, and not more than the cache allows.
pub record IsEntry {N : Type 0} (max_memory_ids : ℕ) (e : EngramEntry N) : Type 0 where
  pub some_id : is_empty e.memory_ids ≡ false
  pub bounded : length e.memory_ids ≤ max_memory_ids
  pub once : Distinct e.memory_ids

-- A bucket has at most one entry for a signature.
pub record IsBucket {N : Type 0} (max_memory_ids : ℕ) (b : List (EngramEntry N)) : Type 0 where
  pub each : All (IsEntry max_memory_ids) b
  pub apart : Distinct (signatures b)

pub record IsValid {N : Type 0} (c : EngramCache N) : Type 0 where
  pub counted : c.cache_hits + c.cache_misses ≡ c.total_lookups
  pub rejections : c.collision_rejections ≤ c.cache_misses
  pub buckets : All (λ item. IsBucket c.max_memory_ids item.1) c.entries
  pub slots : Distinct (Dict.keys c.entries)

-- The constructor builds a valid cache, or refuses bounds that are not positive.
pub new_cache-IsValid :
    {N : Type 0} (hasher : NGramHasher) (threshold bound : ℕ) {c : EngramCache N}
    → new_cache hasher threshold bound ≡ some c
    → IsValid c × (0 < c.cache_threshold) × (0 < c.max_memory_ids)
unfolding new_cache
new_cache-IsValid hasher threshold bound h = ground arith

module _ {N : Type 0} where
  bucket_at-IsBucket :
      (i : ℕ) (c : EngramCache N) → IsValid c → IsBucket c.max_memory_ids (bucket_at i c)
  bucket_at-IsBucket i c v = elim (Option-cases (Dict.get i c.entries)) [
    | inl e ↦ rw (e, bucket_at) (record { each = tt; apart = tt })
    | inr (b, e) ↦
        rw (e, bucket_at) (Dict.All-get (IsBucket c.max_memory_ids) i c.entries v.buckets e)
  ]

  touch-IsEntry :
      (max : ℕ) (now : N) (e : EngramEntry N) → IsEntry max e → IsEntry max (touch now e)
  unfolding touch
  touch-IsEntry max now e h = record { some_id = h.some_id; bounded = h.bounded; once = h.once }

  pub clear-IsValid : (c : EngramCache N) → IsValid (clear c)
  unfolding clear
  clear-IsValid c = record {
    counted = omega arith;
    rejections = omega arith;
    buckets = tt;
    slots = tt;
  }

module _ {N : Type 0} (host : Host N) where
  finish_lookup-IsValid :
      (q : Query N) (top_k : Option ℕ) (c : EngramCache N)
      (o : Option (EngramEntry N × List (EngramEntry N)))
      → IsValid c
      → Touched (signature host q) (bucket_at (slot host c q) c) o
      → AllTouched (IsEntry c.max_memory_ids) (touch-IsEntry c.max_memory_ids) o
      → IsValid (finish_lookup host q top_k c o).0
  unfolding finish_lookup
  finish_lookup-IsValid q top_k c none v t a = record {
    counted = omega (arith, v.counted);
    rejections = ground (arith, v.rejections);
    buckets = v.buckets;
    slots = v.slots;
  }
  finish_lookup-IsValid q top_k c (some (e, b')) v t a = record {
    counted = omega (arith, v.counted);
    rejections = v.rejections;
    buckets =
        Dict.All-put (IsBucket c.max_memory_ids) (slot host c q) b' c.entries
          (record { each = a.1; apart = rw (t.1) (bucket_at-IsBucket (slot host c q) c v).apart })
          v.buckets;
    slots = Dict.put-Distinct (slot host c q) b' c.entries v.slots;
  }

  pub lookup-IsValid :
      (now : N) (q : Query N) (top_k : Option ℕ) (c : EngramCache N)
      → IsValid c
      → IsValid (lookup host now q top_k c).0
  unfolding lookup
  lookup-IsValid now q top_k c v =
      let b = bucket_at (slot host c q) c in
      let s = signature host q in
      finish_lookup-IsValid q top_k c (touch_entry now s b) v (touch_entry-Touched now s b) (
        touch_entry-All (IsEntry c.max_memory_ids) (touch-IsEntry c.max_memory_ids) now s b
          (bucket_at-IsBucket (slot host c q) c v).each)

  finish_cache-IsValid :
      (i : ℕ) (e : EngramEntry N) (c : EngramCache N) (o : Option (List (EngramEntry N)))
      → IsValid c
      → IsEntry c.max_memory_ids e
      → Replaced e (bucket_at i c) o
      → AllReplaced (IsEntry c.max_memory_ids) o
      → IsValid (finish_cache host i e c o).0
  unfolding finish_cache
  finish_cache-IsValid i e c none v ok r a =
      let old = bucket_at-IsBucket i c v in
      let b' = bucket_at i c ++ e ∷ [] in
      record {
        counted = v.counted;
        rejections = v.rejections;
        buckets =
            Dict.All-put (IsBucket c.max_memory_ids) i b' c.entries
              (record {
                each =
                    All-append (IsEntry c.max_memory_ids) (bucket_at i c) (e ∷ []) old.each
                      (ok, tt);
                apart = signatures-append-Distinct e (bucket_at i c) r old.apart;
              })
              v.buckets;
        slots = Dict.put-Distinct i b' c.entries v.slots;
      }
  finish_cache-IsValid i e c (some b') v ok r a = record {
    counted = v.counted;
    rejections = v.rejections;
    buckets =
        Dict.All-put (IsBucket c.max_memory_ids) i b' c.entries
          (record { each = a; apart = rw (r.1) (bucket_at-IsBucket i c v).apart }) v.buckets;
    slots = Dict.put-Distinct i b' c.entries v.slots;
  }

  pub cache-IsValid :
      (now : N) (q : Query N) (memory_ids : List Text) (c : EngramCache N)
      → IsValid c
      → IsValid (cache host now q memory_ids c).0
  unfolding cache
  cache-IsValid now q memory_ids c v =
      let kept = take c.max_memory_ids (dedup memory_ids) in
      let e = new_entry host now q kept in
      let b = bucket_at (slot host c q) c in
      elim (Bool-cases (is_empty kept)) [
        | inl h ↦ rw h v
        | inr h ↦
            let ok : IsEntry c.max_memory_ids e = record {
              some_id = h;
              bounded = length-take-le c.max_memory_ids (dedup memory_ids);
              once = take-Distinct c.max_memory_ids (dedup memory_ids) (dedup-Distinct memory_ids);
            } in
            rw h (
              finish_cache-IsValid (slot host c q) e c (replace_entry e b) v ok
                (replace_entry-Replaced e b)
                (replace_entry-All (IsEntry c.max_memory_ids) e b ok
                  (bucket_at-IsBucket (slot host c q) c v).each))
      ]

  pub record_result-IsValid :
      (now : N) (q : Query N) (memory_ids : List Text) (c : EngramCache N)
      → IsValid c
      → IsValid (record_result host now q memory_ids c).0
  unfolding record_result
  record_result-IsValid now q memory_ids c v =
      let s = signature host q in
      let counted = record c { query_counts = Dict.put s (count_of s c + 1) c.query_counts } in
      let counted_ok : IsValid counted = record {
        counted = v.counted;
        rejections = v.rejections;
        buckets = v.buckets;
        slots = v.slots;
      } in
      let (cached, created) = cache host now q memory_ids counted in
      let cached_ok : IsValid cached = cache-IsValid now q memory_ids counted counted_ok in
      elim (Bool-cases (is_empty memory_ids)) [
        | inl e ↦ rw (e, record_result) v
        | inr e ↦ elim (Bool-cases (ltb (count_of s c + 1) c.cache_threshold)) [
          | inl f ↦ rw (e, f, record_result) counted_ok
          | inr f ↦ elim (Bool-cases created) [
            | inl g ↦
                rw (e, f, g, record_result)
                  (record {
                    counted = cached_ok.counted;
                    rejections = cached_ok.rejections;
                    buckets = cached_ok.buckets;
                    slots = cached_ok.slots;
                  })
            | inr g ↦ rw (e, f, g, record_result) cached_ok
          ]
        ]
      ]
