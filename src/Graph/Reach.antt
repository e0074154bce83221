-- ===== src/Graph/Reach.antt =====
-- What a walk over the graph returns.
use agent_memory_living_memo.Prelude.{
  ℕ, zero, suc, ◌+◌, ◌*◌, ◌≤◌, ◌≡◌, refl, ap, ◌∙◌, arith, Bool, true, false, not, ◌&&◌, ◌||◌, inl,
  inr, Bool-cases, Option, some, Option-cases, List, [], ◌∷◌, ◌++◌, map, All, All-take, Text,
  Text_eq, text_eq_iff, ◌==◌, contains, dedup, Distinct, filter_by, is_empty, take, length,
  length-take-le, take-Distinct, max,
}
use agent_memory_living_memo.Prelude.Dict
use agent_memory_living_memo.Prelude.Floats.{Floats}
use agent_memory_living_memo.Prelude.Among.{Among}
use agent_memory_living_memo.Prelude.Strings.{norm}
use agent_memory_living_memo.Prelude.Sort.{sort_by, insert_by, sort_by-All}
use agent_memory_living_memo.Graph.{GraphRow, active_in}
use agent_memory_living_memo.Graph.Walk.{
  Walk, graph_names_of, touches, Scores, score_row, score_rows, ends_of, hop_weight, hop_rows, hops,
  scored_before, walk_related_memory_ids,
}

module _ {V : Type 0} (before : Text × V → Text × V → Bool) where
  contains-keys-insert_by :
      (x : Text × V) (d : List (Text × V)) (k : Text)
      → contains (Dict.keys (insert_by before x d)) k ≡ (x.0 == k || contains (Dict.keys d) k)
  unfolding insert_by contains
  contains-keys-insert_by x [] k = refl
  contains-keys-insert_by x (y ∷ d) k = ground (arith, contains-keys-insert_by x d k)

  insert_by-keys-Distinct :
      (x : Text × V) (d : List (Text × V))
      → contains (Dict.keys d) x.0 ≡ false
      → Distinct (Dict.keys d)
      → Distinct (Dict.keys (insert_by before x d))
  unfolding insert_by contains
  insert_by-keys-Distinct x [] h e = (refl, tt)
  insert_by-keys-Distinct x (y ∷ d) h e = ground (
    arith,
    insert_by-keys-Distinct x d,
    contains-keys-insert_by x d y.0,
    text_eq_iff x.0 y.0,
    text_eq_iff y.0 x.0,
  )

  contains-keys-sort_by :
      (d : List (Text × V)) (k : Text)
      → contains (Dict.keys (sort_by before d)) k ≡ contains (Dict.keys d) k
  unfolding sort_by contains
  contains-keys-sort_by [] k = refl
  contains-keys-sort_by (x ∷ d) k =
      ground (arith, contains-keys-insert_by x (sort_by before d) k, contains-keys-sort_by d k)

  sort_by-keys-Distinct :
      (d : List (Text × V)) → Distinct (Dict.keys d) → Distinct (Dict.keys (sort_by before d))
  unfolding sort_by
  sort_by-keys-Distinct [] e = tt
  sort_by-keys-Distinct (x ∷ d) e =
      insert_by-keys-Distinct x (sort_by before d) (contains-keys-sort_by d x.0 ∙ e.0)
        (sort_by-keys-Distinct d e.1)

keys-take : {V : Type 0} (n : ℕ) (d : List (Text × V)) → Dict.keys (take n d) ≡ take n (Dict.keys d)
unfolding take
keys-take zero d = refl
keys-take (suc n) [] = refl
keys-take (suc n) (x ∷ d) = ap (◌∷◌ x.0) (keys-take n d)

All-keys :
    {V : Type 0} (P : Text → Type 0) (d : List (Text × V))
    → All (λ item. P item.0) d
    → All P (Dict.keys d)
All-keys P [] h = tt
All-keys P (x ∷ d) h = (h.0, All-keys P d h.1)

All-keys-put :
    {V : Type 0} (P : Text → Type 0) (k : Text) (v : V) (d : List (Text × V))
    → P k
    → All (λ item. P item.0) d
    → All (λ item. P item.0) (Dict.put k v d)
unfolding Dict.put
All-keys-put P k v [] p h = (p, tt)
All-keys-put P k v ((j, w) ∷ d) p h = elim (Bool-cases (j == k)) [
  | inl e ↦ rw (e, Dict.put) h
  | inr e ↦ rw (e, Dict.put) (h.0, All-keys-put P k v d p h.1)
]

module _ (F : Floats) (lower : Text → Text)
    (scan : List (GraphRow F.Float) → List (GraphRow F.Float)) where
  open F use {Float, lt}

  abbrev Row : Type 0
  Row = GraphRow Float

  -- A selection's rows come back in some order, and no others.
  abbrev pub IsScan : Type 1
  IsScan = (Q : Row → Type 0) (rows : List Row) → All Q rows → All Q (scan rows)

  -- The memory owns a stored relation that is active at the time and in one of the graphs.
  pub record Owns (rows : List Row) (at_time : Option Float) (graphs : List Text) (id : Text)
      : Type 0 where
    pub row : Row
    pub stored : Among row rows
    pub owner : row.relation.memory_id ≡ id
    pub active : active_in F lower at_time row.relation ≡ true
    pub in_graph : (is_empty graphs || contains graphs row.relation.graph_name) ≡ true

  touching-Owns :
      (w : Walk Float) (graphs front : List Text) (every rows : List Row)
      → ((r : Row) → Among r rows → Among r every)
      → All
          (λ r. Owns every w.at_time graphs r.relation.memory_id)
          (filter_by (touches F lower scan front graphs w.at_time) rows)
  unfolding filter_by touches
  touching-Owns w graphs front every [] sub = tt
  touching-Owns w graphs front every (r ∷ rows) sub =
      let rest = touching-Owns w graphs front every rows (λ x m. sub x (inr m)) in
      elim (Bool-cases (touches F lower scan front graphs w.at_time r)) [
        | inl e ↦
            rw (e, filter_by)
              (
                record {
                  row = r;
                  stored = sub r (inl refl);
                  owner = refl;
                  active = ground (arith, e);
                  in_graph = ground (arith, e);
                },
                rest,
              )
        | inr e ↦ rw (e, filter_by) rest
      ]

  module _ (P : Text → Type 0) where
    abbrev Good : Scores F lower scan → Type 0
    Good scores = All (λ item. P item.0) scores × Distinct (Dict.keys scores)

    score_row-Good :
        (weight : Float) (row : Row) (scores : Scores F lower scan)
        → P row.relation.memory_id
        → Good scores
        → Good (score_row F lower scan weight row scores)
    unfolding score_row
    score_row-Good weight row scores p (h, d) =
        let r = row.relation in
        let v : Float × Float = (F.mul r.confidence weight, r.created_at) in
        let put : Good (Dict.put r.memory_id v scores) =
          (All-keys-put P r.memory_id v scores p h, Dict.put-Distinct r.memory_id v scores d) in
        elim (Option-cases (Dict.get r.memory_id scores)) [
          | inl e ↦ rw (e, score_row) put
          | inr ((current, created), e) ↦
              elim (Bool-cases (lt current (F.mul r.confidence weight))) [
                | inl f ↦ rw (e, score_row) (rw f put)
                | inr f ↦ rw (e, score_row) (rw f (h, d))
              ]
        ]

    score_rows-Good :
        (weight : Float) (rows : List Row) (scores : Scores F lower scan)
        → All (λ r. P r.relation.memory_id) rows
        → Good scores
        → Good (score_rows F lower scan weight rows scores)
    unfolding score_rows
    score_rows-Good weight [] scores p g = g
    score_rows-Good weight (row ∷ rows) scores p g =
        score_rows-Good weight rows (score_row F lower scan weight row scores) p.1
          (score_row-Good weight row scores p.0 g)

  hops-Good :
      (w : Walk Float) (graphs : List Text) (rows : List Row) (left hop : ℕ)
      (frontier seen : List Text) (scores : Scores F lower scan)
      → IsScan
      → Good (Owns rows w.at_time graphs) scores
      → Good
          (Owns rows w.at_time graphs)
          (hops F lower scan w graphs rows left hop frontier seen scores)
  unfolding hops hop_rows
  hops-Good w graphs rows zero hop frontier seen scores s g = g
  hops-Good w graphs rows (suc left) hop frontier seen scores s g =
      let front = filter_by (λ item. not (is_empty item) && not (contains seen item)) frontier in
      let Q : Row → Type 0 = λ r. Owns rows w.at_time graphs r.relation.memory_id in
      let passing = filter_by (touches F lower scan front graphs w.at_time) rows in
      let read = hop_rows F lower scan w graphs rows front in
      elim (Bool-cases (is_empty front)) [
        | inl e ↦ rw (e, hops) g
        | inr e ↦
            rw (e, hops)
              (hops-Good w graphs rows left (hop + 1) (dedup (ends_of F lower scan read))
                (front ++ seen) (score_rows F lower scan (hop_weight F lower scan hop) read scores)
                s
                (score_rows-Good (Owns rows w.at_time graphs) (hop_weight F lower scan hop) read
                  scores
                  (All-take Q (max (w.limit * 4) w.limit) (scan passing)
                    (s Q passing (touching-Owns w graphs front rows rows (λ r m. m))))
                  g))
      ]

  -- A walk returns at most as many memories as its limit, none twice, and each of them owns a stored
  -- relation that is active at the time asked for and in one of the graphs asked for.
  pub walk_sound :
      (terms : List Text) (w : Walk Float) (rows : List Row) (graphs found : List Text)
      → IsScan
      → graph_names_of lower w.graph_names ≡ some graphs
      → walk_related_memory_ids F lower scan terms w rows ≡ some found
      → All (Owns rows w.at_time graphs) found × Distinct found × (length found ≤ w.limit)
  unfolding walk_related_memory_ids
  walk_sound terms w rows graphs found s g h =
      let P = Owns rows w.at_time graphs in
      let normalized = filter_by (λ t. not (is_empty t)) (map (norm lower) terms) in
      let before = scored_before F lower scan in
      let scores = hops F lower scan w graphs rows (max 1 w.max_hops) 0 (dedup normalized) [] [] in
      let (each, once) =
        hops-Good w graphs rows (max 1 w.max_hops) 0 (dedup normalized) [] [] s (tt, tt) in
      elim (Bool-cases (is_empty normalized)) [
        | inl e ↦ let q : [] ≡ found = ground (arith, h, e) in rw (← q) (tt, tt, omega arith)
        | inr e ↦
            let q : Dict.keys (take w.limit (sort_by before scores)) ≡ found =
              ground (arith, h, e, g) in
            rw (← q) (
              All-keys P (take w.limit (sort_by before scores)) (
                  All-take (λ item. P item.0) w.limit (sort_by before scores)
                    (sort_by-All before (λ item. P item.0) scores each)),
              rw (keys-take w.limit (sort_by before scores)) (
                  take-Distinct w.limit (Dict.keys (sort_by before scores))
                    (sort_by-keys-Distinct before scores once)),
              rw (keys-take w.limit (sort_by before scores))
                  (length-take-le w.limit (Dict.keys (sort_by before scores))),
            )
      ]
