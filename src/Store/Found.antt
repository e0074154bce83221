-- ===== src/Store/Found.antt =====
-- What the queries of the store return: memories that match the scope and the tags that were asked
-- for, and no more of them than the limit.
use agent_memory_living_memo.Prelude.{
  ℕ, true, Bool, ◌∷◌, [], ◌*◌, ◌==◌, Text_eq, map, refl, arith, and_true, all_of, contains,
  filter_by, All-filter_by, Option, none, some, List, Text, All, All-take, filter_by-All, length,
  length-take-le, take, is_empty, Bool-cases, Option-cases, ◌≡◌, ◌≤◌, subst, inl, inr,
}
use agent_memory_living_memo.Prelude.Floats.{Floats}
use agent_memory_living_memo.Prelude.Int.{ℤ}
use agent_memory_living_memo.Prelude.Results.{done, and_then-done, done_injective, raised_not_done}
use agent_memory_living_memo.Prelude.Among.{Among}
use agent_memory_living_memo.Prelude.Dict
use agent_memory_living_memo.Prelude.Sort.{sort_by-All}
use agent_memory_living_memo.Graph.{same_time, of_bool}
use agent_memory_living_memo.Schema.Values.{Json, json_eq}
use agent_memory_living_memo.Schema.Envelope.{to_dict, from_dict}
use agent_memory_living_memo.Mobius.{MobiusAddress, MobiusIndex, neighbors}
use agent_memory_living_memo.Schema.{Dict, MemoryEnvelope}
use agent_memory_living_memo.Schema.Host.{Host}
use agent_memory_living_memo.Store.{TemporalStore}
use agent_memory_living_memo.Store.Search.{
  Sqlite, matches, filter_memories, read_rows, ranked_rows, list_memories, matching_rows,
  fts_expression, search_text, near_ids, joined, important_before, at_least, by_mobius_neighbors,
}

module _ (F : Floats) (h : Host F.Float) where
  open F use {Float}

  -- no more than the limit, all of them as asked for
  abbrev pub IsFound : Dict Float → List Text → ℕ → List (MemoryEnvelope Float) → Type 0
  IsFound scope tags limit found =
      All (λ m. matches F h scope tags m ≡ true) found × (length found ≤ limit)

  pub filter-IsFound :
      (scope : Dict Float) (tags : List Text) (limit : ℕ) (memories : List (MemoryEnvelope Float))
      → IsFound scope tags limit (take limit (filter_memories F h scope tags memories))
  unfolding filter_memories
  filter-IsFound scope tags limit memories = (
    All-take (λ m. matches F h scope tags m ≡ true) limit _
        (filter_by-All (matches F h scope tags) memories),
    length-take-le limit (filter_memories F h scope tags memories),
  )

  pub list_memories-IsFound :
      (now : Float) (scope : Dict Float) (tags : List Text) (min_importance : Option Float)
      (limit : ℕ) (s : TemporalStore Float) {found : List (MemoryEnvelope Float)}
      → list_memories F h now scope tags min_importance (some limit) s ≡ done found
      → IsFound scope tags limit found
  unfolding list_memories
  list_memories-IsFound now scope tags min_importance limit s {found} e =
      let (memories, p, q) =
        and_then-done (read_rows F h now (ranked_rows F h min_importance (some limit) s)) _ e in
      subst (IsFound scope tags limit) (done_injective q) (filter-IsFound scope tags limit memories)

  -- What is asked of a memory: it has every tag that is asked for, and its scope has a value equal to
  -- each that is asked for, where a missing one is null.
  pub record IsAsked (scope : Dict Float) (tags : List Text) (m : MemoryEnvelope Float)
      : Type 0 where
    pub tagged : All (λ tag. contains m.tags tag ≡ true) tags
    pub scoped :
        All
          (λ item.
            json_eq
              (same_time F h.lower)
              (of_bool F h.lower)
              (elim (Dict.get item.0 m.scope) [ none ↦ Json.null | some v ↦ v ])
              item.1
            ≡ true)
          scope

  -- The memory is what `from_dict` makes of a stored row.
  pub record IsStored (now : Float) (s : TemporalStore Float) (m : MemoryEnvelope Float)
      : Type 0 where
    pub row : MemoryEnvelope Float
    pub among : Among row (map (λ item. item.1) s.memories)
    pub read : from_dict F h now (to_dict row) ≡ done m

  all_of-All :
      {A : Type 0} (p : A → Bool) (xs : List A) → all_of p xs ≡ true → All (λ x. p x ≡ true) xs
  unfolding all_of
  all_of-All p [] e = tt
  all_of-All p (x ∷ xs) e =
      let (first, rest) = and_true (p x) (all_of p xs) e in (first, all_of-All p xs rest)

  all-IsAsked :
      (scope : Dict Float) (tags : List Text) (ms : List (MemoryEnvelope Float))
      → All (λ m. matches F h scope tags m ≡ true) ms
      → All (IsAsked scope tags) ms
  unfolding matches
  all-IsAsked scope tags [] k = tt
  all-IsAsked scope tags (m ∷ ms) k =
      let (scoped, tagged) = and_true _ _ k.0 in
      (
        record {
          tagged = all_of-All (contains m.tags) tags tagged;
          scoped = all_of-All _ scope scoped;
        },
        all-IsAsked scope tags ms k.1,
      )

  -- the rows are stored ones
  abbrev AreRows : TemporalStore Float → List (MemoryEnvelope Float) → Type 0
  AreRows s = All (λ row. Among row (map (λ item. item.1) s.memories))

  read_rows-IsStored :
      (now : Float) (s : TemporalStore Float) (rows : List (MemoryEnvelope Float))
      {ms : List (MemoryEnvelope Float)}
      → AreRows s rows
      → read_rows F h now rows ≡ done ms
      → All (IsStored now s) ms
  unfolding read_rows
  read_rows-IsStored now s [] {ms} k e = subst (All (IsStored now s)) (done_injective e) tt
  read_rows-IsStored now s (row ∷ rows) {ms} k e =
      let (memory, read, e1) = and_then-done (from_dict F h now (to_dict row)) _ e in
      let (memories, later, made) = and_then-done (read_rows F h now rows) _ e1 in
      subst (All (IsStored now s)) (done_injective made)
        (record { row = row; among = k.0; read = read }, read_rows-IsStored now s rows k.1 later)

  own-AreRows :
      {A : Type 0} (xs : List A) (P : A → Type 0) → ((a : A) → Among a xs → P a) → All P xs
  own-AreRows [] P k = tt
  own-AreRows (x ∷ xs) P k = (k x (inl refl), own-AreRows xs P (λ a m. k a (inr m)))

  ranked_rows-AreRows :
      (min_importance : Option Float) (limit : ℕ) (s : TemporalStore Float)
      → AreRows s (ranked_rows F h min_importance (some limit) s)
  unfolding ranked_rows
  ranked_rows-AreRows min_importance limit s =
      let rows = map (λ item. item.1) s.memories in
      let P : MemoryEnvelope Float → Type 0 = λ row. Among row rows in
      All-take P (limit * 4) _ (
        sort_by-All (important_before F h) P (filter_by (at_least F h min_importance) rows)
          (All-filter_by P (at_least F h min_importance) rows (own-AreRows rows P (λ a m. m))))

  get-Among :
      (id : Text) (rows : List (Text × MemoryEnvelope Float)) {row : MemoryEnvelope Float}
      → Dict.get id rows ≡ some row
      → Among row (map (λ item. item.1) rows)
  unfolding Dict.get
  get-Among id [] {row} e = absurd (ground (arith, e))
  get-Among id ((first, m) ∷ rows) {row} e = elim (Bool-cases (first == id)) [
    | inl here ↦ inl (ground (arith, here, e))
    | inr there ↦ inr (get-Among id rows (ground (arith, there, e)))
  ]

  joined-AreRows :
      (ids : List Text) (s : TemporalStore Float) → AreRows s (joined F h ids s.memories)
  unfolding joined
  joined-AreRows [] s = tt
  joined-AreRows (id ∷ ids) s = elim (Option-cases (Dict.get id s.memories)) [
    | inl e ↦ rw (e, joined) (joined-AreRows ids s)
    | inr (row, e) ↦ rw (e, joined) (get-Among id s.memories e, joined-AreRows ids s)
  ]

  list_memories-IsStored :
      (now : Float) (scope : Dict Float) (tags : List Text) (min_importance : Option Float)
      (limit : ℕ) (s : TemporalStore Float) {found : List (MemoryEnvelope Float)}
      → list_memories F h now scope tags min_importance (some limit) s ≡ done found
      → All (IsStored now s) found
  unfolding list_memories filter_memories
  list_memories-IsStored now scope tags min_importance limit s {found} e =
      let (memories, read, made) =
        and_then-done (read_rows F h now (ranked_rows F h min_importance (some limit) s)) _ e in
      subst (All (IsStored now s)) (done_injective made) (
        All-take (IsStored now s) limit _ (
          All-filter_by (IsStored now s) (matches F h scope tags) memories
            (read_rows-IsStored now s _ (ranked_rows-AreRows min_importance limit s) read)))

  module _ (sql : Sqlite) where
    pub search_text-IsFound :
        (now : Float) (query : Text) (scope : Dict Float) (tags : List Text) (limit : ℕ)
        (s : TemporalStore Float) {found : List (MemoryEnvelope Float)}
        → search_text F h sql now query scope tags limit s ≡ done found
        → IsFound scope tags limit found
    unfolding search_text
    search_text-IsFound now query scope tags limit s {found} e =
        elim (Bool-cases (is_empty (fts_expression h query))) [
          | inl blank ↦
              list_memories-IsFound now scope tags none limit s (rw (blank, search_text) at e)
          | inr words ↦
              let expression = fts_expression h query in
              let (memories, p, q) =
                and_then-done (read_rows F h now (matching_rows F h sql expression query limit s)) _
                  (rw (words, search_text) at e) in
              subst (IsFound scope tags limit) (done_injective q)
                (filter-IsFound scope tags limit memories)
        ]

    pub by_mobius_neighbors-IsFound :
        (now : Float) (grid : MobiusIndex) (address : MobiusAddress) (depth : ℤ)
        (scope : Dict Float) (tags : List Text) (limit : ℕ) (s : TemporalStore Float)
        {found : List (MemoryEnvelope Float)}
        → by_mobius_neighbors F h sql now grid address depth scope tags limit s ≡ done found
        → IsFound scope tags limit found
    unfolding by_mobius_neighbors
    by_mobius_neighbors-IsFound now grid address depth scope tags limit s {found} e =
        elim (Option-cases (neighbors grid address depth)) [
          | inl none' ↦ absurd (raised_not_done (rw (none', by_mobius_neighbors) at e))
          | inr (near, near') ↦
              let rows = joined F h (near_ids F h sql near s.mobius_index) s.memories in
              let (memories, p, q) =
                and_then-done (read_rows F h now rows) _ (rw (near', by_mobius_neighbors) at e) in
              subst (IsFound scope tags limit) (done_injective q)
                (filter-IsFound scope tags limit memories)
        ]

    search_text-IsStored :
        (now : Float) (query : Text) (scope : Dict Float) (tags : List Text) (limit : ℕ)
        (s : TemporalStore Float) {found : List (MemoryEnvelope Float)}
        → search_text F h sql now query scope tags limit s ≡ done found
        → All (IsStored now s) found
    unfolding search_text filter_memories matching_rows
    search_text-IsStored now query scope tags limit s {found} e =
        elim (Bool-cases (is_empty (fts_expression h query))) [
          | inl blank ↦
              list_memories-IsStored now scope tags none limit s (rw (blank, search_text) at e)
          | inr words ↦
              let rows = matching_rows F h sql (fts_expression h query) query limit s in
              let (memories, read, made) =
                and_then-done (read_rows F h now rows) _ (rw (words, search_text) at e) in
              subst (All (IsStored now s)) (done_injective made) (
                All-take (IsStored now s) limit _ (
                  All-filter_by (IsStored now s) (matches F h scope tags) memories (
                    read_rows-IsStored now s rows
                      (All-take (λ row. Among row (map (λ item. item.1) s.memories)) (limit * 4) _
                        (joined-AreRows _ s))
                      read)))
        ]

    -- Whatever rows the text index returns, a text search that raises nothing returns at most as many
    -- memories as its limit. Each of them is what `from_dict` makes of a stored row, has every tag that
    -- is asked for, and has in its scope a value equal to each that is asked for, where a missing one
    -- is null.
    pub search_text-IsAsked :
        (now : Float) (query : Text) (scope : Dict Float) (tags : List Text) (limit : ℕ)
        (s : TemporalStore Float) {found : List (MemoryEnvelope Float)}
        → search_text F h sql now query scope tags limit s ≡ done found
        → All (IsAsked scope tags) found × All (IsStored now s) found × (length found ≤ limit)
    search_text-IsAsked now query scope tags limit s {found} e =
        let (matched, few) = search_text-IsFound now query scope tags limit s e in
        (
          all-IsAsked scope tags found matched,
          search_text-IsStored now query scope tags limit s e,
          few,
        )
