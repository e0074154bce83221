-- ===== src/Facts/Status.antt =====
-- The status of facts: active until another fact, or their own, supersedes them.
use agent_memory_living_memo.Prelude.{
  ℕ, ◌+◌, ◌≤◌, ◌≡◌, refl, arith, Bool, true, false, not, ◌||◌, inl, inr, Bool-cases, Option, none,
  some, Option-cases, List, [], ◌∷◌, map, All, All-take, All-filter_by, filter_by, filter_by-All,
  Text, Text_eq, text_eq, codes, ◌==◌, Distinct, is_empty, length, length-take-le, take,
}
use agent_memory_living_memo.Prelude.Dict
use agent_memory_living_memo.Prelude.Floats.{Floats, IsOrder, IsUnit, clamp_low-IsUnit}
use agent_memory_living_memo.Prelude.Results.{done}
use agent_memory_living_memo.Prelude.Sort.{sort_by, sort_by-All}
use agent_memory_living_memo.Schema.{Dict}
use agent_memory_living_memo.Facts.{
  FactRecord, FactKey, Ledger, NewFact, superseded_row, mark, marked_ledger, record_of,
  supersede_all, add_fact, fact_before, facts_for_memory, memory_fact_status, list_facts, in_scope,
  all_facts,
}
use agent_memory_living_memo.Facts.Rows.{
  supersede_all-turn, supersede_all-end, store_fact-done, add_fact-some, add_fact-none, keys-mark,
}

module _ (F : Floats) (lower : Text → Text) (digest : FactKey F.Float → Text) where
  open F use {Float}

  abbrev pub by_some : Option Text → Bool
  by_some none = false
  by_some (some t) = true

  -- A fact is superseded exactly when it says by which, else active, and its confidence is in bounds.
  pub record IsFact (r : FactRecord Float) : Type 0 where
    pub superseded : (r.status == codes "superseded") ≡ by_some r.superseded_by
    pub active : (r.status == codes "active") ≡ not (by_some r.superseded_by)
    pub sure : IsUnit F r.confidence

  pub record IsLedger (l : Ledger Float) : Type 0 where
    pub each : All (λ item. IsFact item.1) l.facts
    pub ids : Distinct (Dict.keys l.facts)

  superseded_row-IsFact :
      (by : Text) (r : FactRecord Float) → IsFact r → IsFact (superseded_row by r)
  unfolding text_eq
  superseded_row-IsFact by r v = record { superseded = refl; active = refl; sure = v.sure }

  mark-IsFact :
      (by old : Text) (facts : List (Text × FactRecord Float))
      → All (λ item. IsFact item.1) facts
      → All (λ item. IsFact item.1) (mark by old facts)
  unfolding mark
  mark-IsFact by old [] h = tt
  mark-IsFact by old ((id, r) ∷ facts) h = elim (Bool-cases (id == old)) [
    | inl e ↦ rw (e, mark) (superseded_row-IsFact by r h.0, mark-IsFact by old facts h.1)
    | inr e ↦ rw (e, mark) (h.0, mark-IsFact by old facts h.1)
  ]

  supersede_all-IsLedger :
      (r : FactRecord Float) (olds : List Text) (l l' : Ledger Float)
      → IsLedger l
      → supersede_all F lower digest r olds l ≡ done l'
      → IsLedger l'
  unfolding marked_ledger
  supersede_all-IsLedger r [] l l' v h = rw (← supersede_all-end F lower digest r l l' h) v
  supersede_all-IsLedger r (old ∷ olds) l l' v h =
      let (graph, t) = supersede_all-turn F lower digest r old olds l l' h in
      supersede_all-IsLedger r olds (marked_ledger F lower digest r old graph l) l'
        (record {
          each = mark-IsFact r.fact_id old l.facts v.each;
          ids = rw (keys-mark r.fact_id old l.facts) (v.ids);
        })
        t

  record_of-IsFact : (f : NewFact Float) → IsOrder F → IsFact (record_of F lower digest f)
  unfolding record_of text_eq
  record_of-IsFact f o = record {
    superseded = refl;
    active = refl;
    sure = clamp_low-IsUnit F o f.confidence;
  }

  -- Adding a fact keeps the ledger valid, whether it raises or not: no id is filed twice, a fact is
  -- superseded exactly when it says by which and active otherwise, and confidences are in bounds.
  pub add_fact-IsLedger :
      (f : NewFact Float) (l : Ledger Float)
      → IsOrder F
      → IsLedger l
      → IsLedger (add_fact F lower digest f l).0
  add_fact-IsLedger f l o v = elim (Option-cases (add_fact F lower digest f l).1) [
    | inl e ↦
        let (p, q) = add_fact-none F lower digest f l e in
        record { each = rw p v.each; ids = rw p v.ids }
    | inr (found, e) ↦
        let r = record_of F lower digest f in
        let l' = (add_fact F lower digest f l).0 in
        let (graph, t) =
          store_fact-done F lower digest r l l' (add_fact-some F lower digest f l found e) in
        supersede_all-IsLedger r r.supersedes
          (record { facts = Dict.put r.fact_id r l.facts; conflicts = l.conflicts; graph = graph })
          l'
          (record {
            each = Dict.All-put IsFact r.fact_id r l.facts (record_of-IsFact f o) v.each;
            ids = Dict.put-Distinct r.fact_id r l.facts v.ids;
          })
          t
  ]

  All-values :
      (facts : List (Text × FactRecord Float))
      → All (λ item. IsFact item.1) facts
      → All IsFact (map (λ item. item.1) facts)
  All-values [] h = tt
  All-values (x ∷ xs) h = (h.0, All-values xs h.1)

  count_by_status :
      (facts : List (FactRecord Float))
      → All IsFact facts
      → length (filter_by (λ r. r.status == codes "active") facts)
          + length (filter_by (λ r. r.status == codes "superseded") facts)
        ≡ length facts
  unfolding filter_by
  count_by_status [] h = refl
  count_by_status (r ∷ facts) h =
      ground (arith, count_by_status facts h.1, h.0.superseded, h.0.active)

  -- In a valid ledger the active and the superseded facts of a memory are all its facts.
  pub memory_fact_status_total :
      (memory_id : Text) (l : Ledger Float)
      → IsLedger l
      → (memory_fact_status F lower digest memory_id l).0
          + (memory_fact_status F lower digest memory_id l).1
        ≡ length (facts_for_memory F lower digest memory_id l)
  unfolding memory_fact_status facts_for_memory
  memory_fact_status_total memory_id l v =
      let own = filter_by (λ r. r.source_memory_id == memory_id) (all_facts F lower digest l) in
      count_by_status (facts_for_memory F lower digest memory_id l) (
        sort_by-All (fact_before F lower digest) IsFact own (
          All-filter_by IsFact (λ r. r.source_memory_id == memory_id) (all_facts F lower digest l)
            (All-values l.facts v.each)))

  All-or :
      (b : Bool) (t : FactRecord Float → Bool) (facts : List (FactRecord Float))
      → b ≡ false
      → All (λ r. (b || t r) ≡ true) facts
      → All (λ r. t r ≡ true) facts
  All-or b t [] p h = tt
  All-or b t (r ∷ facts) p h = (ground (arith, p, h.0), All-or b t facts p h.1)

  -- The facts listed for a status and a scope have that status and lie in that scope, and are not
  -- more than the limit.
  pub list_facts_sound :
      (scope : Dict Float) (status : Text) (limit : ℕ) (l : Ledger Float)
      → is_empty status ≡ false
      → is_empty scope ≡ false
      → All
          (λ r. (r.status == status) ≡ true)
          (list_facts F lower digest scope status (some limit) l)
        × All
            (λ r. in_scope F lower digest scope r ≡ true)
            (list_facts F lower digest scope status (some limit) l)
        × (length (list_facts F lower digest scope status (some limit) l) ≤ limit)
  unfolding list_facts
  list_facts_sound scope status limit l p q =
      let passes : FactRecord Float → Bool = λ r. is_empty status || (r.status == status) in
      let sorted =
        sort_by (fact_before F lower digest) (filter_by passes (all_facts F lower digest l)) in
      let right : FactRecord Float → Type 0 = λ r. (r.status == status) ≡ true in
      let tests = in_scope F lower digest scope in
      let kept = filter_by tests (take limit sorted) in
      rw (q, list_facts)
        (
          All-take right limit kept (
              All-filter_by right tests (take limit sorted) (
                All-or (is_empty status) (λ r. r.status == status) (take limit sorted) p
                  (All-take (λ r. passes r ≡ true) limit sorted
                    (sort_by-All (fact_before F lower digest) (λ r. passes r ≡ true) _
                      (filter_by-All passes (all_facts F lower digest l)))))),
          All-take (λ r. tests r ≡ true) limit kept (filter_by-All tests (take limit sorted)),
          length-take-le limit kept,
        )
