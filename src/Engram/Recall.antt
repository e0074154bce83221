-- ===== src/Engram/Recall.antt =====
-- The cache as a map from a slot and a signature to memory ids: what the methods return and change.
use agent_memory_living_memo.Prelude.{
  ℕ, ◌+◌, ◌≡◌, refl, ap, ◌∙◌, arith, true, false, not, ◌&&◌, inl, inr, Bool-cases, Option, none,
  some, List, [], ◌∷◌, ◌++◌, Text, Text_eq, ℕ_eq, nat_eq, ◌==◌, if◌then◌else◌, is_empty, take,
  dedup, ltb, leb, beq_self,
}
use agent_memory_living_memo.Prelude.Dict
use agent_memory_living_memo.Engram.{
  EngramEntry, EngramCache, Query, Host, replace_entry, lookup, finish_lookup, cache, finish_cache,
  record_result, new_entry, signature, slot, bucket_at, count_of,
}
use agent_memory_living_memo.Engram.Buckets.{
  ids_at, ids_at-append, Touched, touch_entry-Touched, Replaced, replace_entry-Replaced,
}

-- `memory_ids[:limit]` of what a lookup finds
abbrev pub shown : Option ℕ → Option (List Text) → List Text
shown top_k none = []
shown none (some ids) = ids
shown (some k) (some ids) = take k ids

module _ {N : Type 0} where
  -- The ids that a slot holds for a signature.
  unfoldable pub view : EngramCache N → ℕ → Text → Option (List Text)
  view c i s = ids_at s (bucket_at i c)

  bucket_at-put :
      (c c' : EngramCache N) (i j : ℕ) (b : List (EngramEntry N))
      → c'.entries ≡ Dict.put i b c.entries
      → bucket_at j c' ≡ (if nat_eq i j then b else bucket_at j c)
  bucket_at-put c c' i j b h = ground (arith, h, Dict.get-put i j b c.entries)

module _ {N : Type 0} (host : Host N) where
  finish_lookup-view :
      (q : Query N) (top_k : Option ℕ) (c : EngramCache N)
      (o : Option (EngramEntry N × List (EngramEntry N))) (i : ℕ) (s : Text)
      → Touched (signature host q) (bucket_at (slot host c q) c) o
      → ((finish_lookup host q top_k c o).1
          ≡ shown top_k (view c (slot host c q) (signature host q)))
        × (view (finish_lookup host q top_k c o).0 i s ≡ view c i s)
  unfolding finish_lookup view
  finish_lookup-view q none c none i s t = (rw (t.1) refl, refl)
  finish_lookup-view q (some k) c none i s t = (rw (t.1) refl, refl)
  finish_lookup-view q top_k c (some (e, b')) i s t = (
    elim top_k
        as (λ k.
          (elim k [ none ↦ e.memory_ids | some n ↦ take n e.memory_ids ])
          ≡ shown k (ids_at (signature host q) (bucket_at (slot host c q) c))) [
            | none ↦ rw (t.0) refl
            | some k ↦ rw (t.0) refl
          ],
    ground (
      arith,
      bucket_at-put c (finish_lookup host q top_k c (some (e, b'))).0 (slot host c q) i b' refl,
      t.2 s,
    ),
  )

  -- A lookup returns the ids that the query's slot holds for its signature, cut to `top_k`, and
  -- changes no ids anywhere.
  pub lookup-view :
      (now : N) (q : Query N) (top_k : Option ℕ) (c : EngramCache N) (i : ℕ) (s : Text)
      → ((lookup host now q top_k c).1 ≡ shown top_k (view c (slot host c q) (signature host q)))
        × (view (lookup host now q top_k c).0 i s ≡ view c i s)
  unfolding lookup
  lookup-view now q top_k c i s =
      finish_lookup-view q top_k c _ i s
        (touch_entry-Touched now (signature host q) (bucket_at (slot host c q) c))

  -- the ids that `cache` stores
  abbrev pub stored : EngramCache N → List Text → List Text
  stored c memory_ids = take c.max_memory_ids (dedup memory_ids)

  finish_cache-view :
      (k : ℕ) (e : EngramEntry N) (c : EngramCache N) (o : Option (List (EngramEntry N))) (i : ℕ)
      (s : Text)
      → Replaced e (bucket_at k c) o
      → view (finish_cache host k e c o).0 i s
        ≡ (if nat_eq k i && (e.signature == s) then some e.memory_ids else view c i s)
  unfolding finish_cache view
  finish_cache-view k e c none i s r = ground (
    arith,
    bucket_at-put c (finish_cache host k e c none).0 k i (bucket_at k c ++ e ∷ []) refl,
    ids_at-append e (bucket_at k c) s r,
  )
  finish_cache-view k e c (some b') i s r =
      ground (arith, bucket_at-put c (finish_cache host k e c (some b')).0 k i b' refl, r.2 s)

  -- Caching writes the ids, without repetitions and cut to the bound, at the query's slot and
  -- signature and nowhere else; with no ids it changes nothing.
  pub cache-view :
      (now : N) (q : Query N) (memory_ids : List Text) (c : EngramCache N) (i : ℕ) (s : Text)
      → view (cache host now q memory_ids c).0 i s ≡ (
          if not (is_empty (stored c memory_ids))
            && (nat_eq (slot host c q) i && (signature host q == s))
          then some (stored c memory_ids)
          else view c i s)
  unfolding cache
  cache-view now q memory_ids c i s =
      let e = new_entry host now q (stored c memory_ids) in
      let b = bucket_at (slot host c q) c in
      elim (Bool-cases (is_empty (stored c memory_ids))) [
        | inl h ↦ rw (h, cache) refl
        | inr h ↦
            rw (h, cache)
              (finish_cache-view (slot host c q) e c (replace_entry e b) i s
                (replace_entry-Replaced e b))
      ]

  finish_cache-hasher :
      (k : ℕ) (e : EngramEntry N) (c : EngramCache N) (o : Option (List (EngramEntry N)))
      → (finish_cache host k e c o).0.hasher ≡ c.hasher
  unfolding finish_cache
  finish_cache-hasher k e c none = refl
  finish_cache-hasher k e c (some b') = refl

  cache-hasher :
      (now : N) (q : Query N) (memory_ids : List Text) (c : EngramCache N)
      → (cache host now q memory_ids c).0.hasher ≡ c.hasher
  unfolding cache
  cache-hasher now q memory_ids c = ground (
    arith,
    finish_cache-hasher (slot host c q) (new_entry host now q (stored c memory_ids)) c
        (replace_entry (new_entry host now q (stored c memory_ids)) (bucket_at (slot host c q) c)),
  )

  -- A lookup after caching some ids for the same query returns these ids, without repetitions and
  -- cut to the bound and to `top_k`.
  pub lookup-cache :
      (now later : N) (q : Query N) (memory_ids : List Text) (top_k : Option ℕ) (c : EngramCache N)
      → is_empty (stored c memory_ids) ≡ false
      → (lookup host later q top_k (cache host now q memory_ids c).0).1
        ≡ shown top_k (some (stored c memory_ids))
  lookup-cache now later q memory_ids top_k c h =
      let c' = (cache host now q memory_ids c).0 in
      let i = slot host c' q in
      let s = signature host q in
      (lookup-view later q top_k c' i s).0
      ∙ ap (shown top_k) {y = some (stored c memory_ids)} (
          cache-view now q memory_ids c i s
          ∙ ground (
            arith,
            h,
            beq_self s,
            ap (λ h. slot host (record c { hasher = h }) q) (cache-hasher now q memory_ids c),
          ))

  finish_cache-counts :
      (k : ℕ) (e : EngramEntry N) (c : EngramCache N) (o : Option (List (EngramEntry N)))
      → (finish_cache host k e c o).0.query_counts ≡ c.query_counts
  unfolding finish_cache
  finish_cache-counts k e c none = refl
  finish_cache-counts k e c (some b') = refl

  cache-counts :
      (now : N) (q : Query N) (memory_ids : List Text) (c : EngramCache N)
      → (cache host now q memory_ids c).0.query_counts ≡ c.query_counts
  unfolding cache
  cache-counts now q memory_ids c = ground (
    arith,
    finish_cache-counts (slot host c q) (new_entry host now q (stored c memory_ids)) c
        (replace_entry (new_entry host now q (stored c memory_ids)) (bucket_at (slot host c q) c)),
  )

  -- the counts after a result that is not empty
  record_result-query_counts :
      (now : N) (q : Query N) (memory_ids : List Text) (c : EngramCache N)
      → is_empty memory_ids ≡ false
      → (record_result host now q memory_ids c).0.query_counts
        ≡ Dict.put (signature host q) (count_of (signature host q) c + 1) c.query_counts
  unfolding record_result
  record_result-query_counts now q memory_ids c e =
      let n = count_of (signature host q) c + 1 in
      let counted = record c { query_counts = Dict.put (signature host q) n c.query_counts } in
      let same = cache-counts now q memory_ids counted in
      elim (Bool-cases (ltb n c.cache_threshold)) [
        | inl f ↦ rw (e, f, record_result) refl
        | inr f ↦ elim (Bool-cases (cache host now q memory_ids counted).1) [
          | inl created ↦ rw (e, f, created, record_result) same
          | inr created ↦ rw (e, f, created, record_result) same
        ]
      ]

  record_result-count :
      (now : N) (q : Query N) (memory_ids : List Text) (c : EngramCache N) (s : Text)
      → count_of s (record_result host now q memory_ids c).0 ≡ (
          if not (is_empty memory_ids) && (signature host q == s)
          then count_of (signature host q) c + 1
          else count_of s c)
  unfolding record_result
  record_result-count now q memory_ids c s =
      let n = count_of (signature host q) c + 1 in
      elim (Bool-cases (is_empty memory_ids)) [
        | inl e ↦ rw (e, record_result) refl
        | inr e ↦
            ap (λ (d : List (Text × ℕ)). elim (Dict.get s d) [ none ↦ 0 | some n ↦ n ])
              (record_result-query_counts now q memory_ids c e)
            ∙ ground (arith, e, Dict.get-put (signature host q) s n c.query_counts)
      ]

  -- what a result writes
  pub record_result-view :
      (now : N) (q : Query N) (memory_ids : List Text) (c : EngramCache N) (i : ℕ) (s : Text)
      → view (record_result host now q memory_ids c).0 i s ≡ (
          if not (is_empty memory_ids)
            && (leb c.cache_threshold (count_of (signature host q) c + 1)
                && (not (is_empty (stored c memory_ids))
                    && (nat_eq (slot host c q) i && (signature host q == s))))
          then some (stored c memory_ids)
          else view c i s)
  unfolding record_result view
  record_result-view now q memory_ids c i s =
      let sig = signature host q in
      let n = count_of sig c + 1 in
      let counted = record c { query_counts = Dict.put sig n c.query_counts } in
      let written = cache-view now q memory_ids counted i s in
      elim (Bool-cases (is_empty memory_ids)) [
        | inl e ↦ rw (e, record_result) refl
        | inr e ↦ elim (Bool-cases (ltb n c.cache_threshold)) [
          | inl f ↦
              let g : leb c.cache_threshold n ≡ false = ground arith in
              rw (e, f, g, record_result) refl
          | inr f ↦
              let g : leb c.cache_threshold n ≡ true = ground arith in
              elim (Bool-cases (cache host now q memory_ids counted).1) [
                | inl created ↦ rw (e, f, g, created, record_result) written
                | inr created ↦ rw (e, f, g, created, record_result) written
              ]
        ]
      ]

  -- Results are remembered from the threshold on. An empty result changes no count and no ids. Any
  -- other one adds one to the count of its query's signature and to no other. If the new count
  -- reaches the threshold, the ids, without repetitions and cut to the bound, are written at the
  -- query's slot and signature, unless none are left; all other ids stay, and before the threshold
  -- all ids.
  pub record_result-remembered :
      (now : N) (q : Query N) (memory_ids : List Text) (c : EngramCache N) (i : ℕ) (s : Text)
      → (count_of s (record_result host now q memory_ids c).0 ≡ (
          if not (is_empty memory_ids) && (signature host q == s)
          then count_of (signature host q) c + 1
          else count_of s c))
        × (view (record_result host now q memory_ids c).0 i s ≡ (
            if not (is_empty memory_ids)
              && (leb c.cache_threshold (count_of (signature host q) c + 1)
                  && (not (is_empty (stored c memory_ids))
                      && (nat_eq (slot host c q) i && (signature host q == s))))
            then some (stored c memory_ids)
            else view c i s))
  record_result-remembered now q memory_ids c i s =
      (record_result-count now q memory_ids c s, record_result-view now q memory_ids c i s)
