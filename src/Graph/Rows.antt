-- ===== src/Graph/Rows.antt =====
-- What holds of every table of relations, and that adding and indexing keep it.
use agent_memory_living_memo.Prelude.{
  ◌≡◌, refl, ◌∙◌, arith, Bool, true, false, ◌&&◌, ◌||◌, inl, inr, Bool-cases, Option, none, some,
  Option-cases, List, [], ◌∷◌, ◌++◌, All, All-append, Text, Text_eq, text_eq, codes, contains,
  any_of, is_empty, if◌then◌else◌,
}
use agent_memory_living_memo.Prelude.Floats.{Floats, IsOrder, IsUnit, clamp_low, clamp_low-IsUnit}
use agent_memory_living_memo.Prelude.Strings.{strip, norm, replace_char}
use agent_memory_living_memo.Schema.{MemoryEnvelope, RelationItem}
use agent_memory_living_memo.Graph.{
  TemporalRelation, GraphRow, allowed_graph_names, given, graph_name_of, same_key, row_of,
  insert_row, cleaned, add_relation, item_relation, index_items, index_memory,
}

blank_allowed :
    (timed : Bool)
    → contains allowed_graph_names (if timed then codes "temporal" else codes "semantic") ≡ true
unfolding contains text_eq
blank_allowed true = refl
blank_allowed false = refl

subst_allowed :
    (s t : Text)
    → contains allowed_graph_names s ≡ true
    → Path (Option Text) (some s) (some t)
    → contains allowed_graph_names t ≡ true
subst_allowed s t h e = let q : s ≡ t = ground arith in rw (← q) h

-- the names that `_graph_name` gives are allowed
pub graph_name_of-contains :
    (lower : Text → Text) (value : Option Text) (timed : Bool) {name : Text}
    → graph_name_of lower value timed ≡ some name
    → contains allowed_graph_names name ≡ true
unfolding graph_name_of
graph_name_of-contains lower none timed {name} h = subst_allowed _ name (blank_allowed timed) h
graph_name_of-contains lower (some v) timed {name} h = elim (Bool-cases (is_empty (strip v))) [
  | inl e ↦
      subst_allowed (if timed then codes "temporal" else codes "semantic") name
        (blank_allowed timed) (rw e at h)
  | inr e ↦ elim (Bool-cases (contains allowed_graph_names (replace_char 32 95 (norm lower v)))) [
    | inl f ↦ subst_allowed (replace_char 32 95 (norm lower v)) name f (rw (e, f) at h)
    | inr f ↦ absurd (ground (arith, h, e, f))
  ]
]

module _ (F : Floats) (lower : Text → Text) where
  open F use {Float}

  -- A row has an allowed graph name, names that are not empty with their normal forms beside them,
  -- and a confidence between 0 and 1.
  pub record IsRow (row : GraphRow Float) : Type 0 where
    pub allowed : contains allowed_graph_names row.relation.graph_name ≡ true
    pub named :
        (is_empty row.relation.subject
          || is_empty row.relation.predicate
          || is_empty row.relation.object)
        ≡ false
    pub normal : row ≡ row_of F lower row.relation
    pub sure : IsUnit F row.relation.confidence

  -- No row could have been inserted after an earlier one of the same key.
  abbrev pub Apart : List (GraphRow Float) → Type 0
  Apart [] = Unit
  Apart (x ∷ xs) = All (λ y. same_key F lower y x ≡ false) xs × Apart xs

  pub record IsTable (rows : List (GraphRow Float)) : Type 0 where
    pub each : All IsRow rows
    pub apart : Apart rows

  Apart-append :
      (row : GraphRow Float) (rows : List (GraphRow Float))
      → Apart rows
      → any_of (same_key F lower row) rows ≡ false
      → Apart (rows ++ row ∷ [])
  unfolding any_of
  Apart-append row [] a h = (tt, tt)
  Apart-append row (x ∷ xs) a h = (
    All-append (λ y. same_key F lower y x ≡ false) xs (row ∷ []) a.0 (ground arith, tt),
    Apart-append row xs a.1 (ground arith),
  )

  pub insert_row-IsTable :
      (row : GraphRow Float) (rows : List (GraphRow Float))
      → IsRow row
      → IsTable rows
      → IsTable (insert_row F lower row rows)
  unfolding insert_row
  insert_row-IsTable row rows r t = elim (Bool-cases (any_of (same_key F lower row) rows)) [
    | inl e ↦ rw (e, insert_row) t
    | inr e ↦
        rw (e, insert_row)
          (record {
            each = All-append IsRow rows (row ∷ []) t.each (r, tt);
            apart = Apart-append row rows t.apart e;
          })
  ]

  -- what a relation that is added looks like, and where it goes
  pub add_relation-some :
      (r : TemporalRelation Float) (graph_name : Option Text) (rows rows' : List (GraphRow Float))
      (relation : TemporalRelation Float)
      → add_relation F lower r graph_name rows ≡ some (rows', relation)
      → (name : Text) × (graph_name_of lower graph_name (given r.valid_from || given r.valid_to)
          ≡ some name)
        × (relation ≡ cleaned F lower r name)
        × ((is_empty relation.subject || is_empty relation.predicate || is_empty relation.object)
            ≡ false)
        × (rows' ≡ insert_row F lower (row_of F lower relation) rows)
  unfolding add_relation
  add_relation-some r graph_name rows rows' relation h =
      elim (Option-cases
        (graph_name_of lower graph_name (given r.valid_from || given r.valid_to))) [
          | inl e ↦ absurd (ground arith)
          | inr (name, e) ↦ (name, e, ground arith, ground arith, ground arith)
        ]

  -- Adding a relation keeps the table valid.
  pub add_relation-IsTable :
      (r : TemporalRelation Float) (graph_name : Option Text) (rows rows' : List (GraphRow Float))
      (relation : TemporalRelation Float)
      → IsOrder F
      → IsTable rows
      → add_relation F lower r graph_name rows ≡ some (rows', relation)
      → IsTable rows'
  unfolding clamp_low
  add_relation-IsTable r graph_name rows rows' relation o t h =
      let (name, g, e, n, w) = add_relation-some r graph_name rows rows' relation h in
      rw w (
        insert_row-IsTable (row_of F lower relation) rows
          (record {
            allowed = rw e (
                graph_name_of-contains lower graph_name (given r.valid_from || given r.valid_to) g);
            named = n;
            normal = refl;
            sure = rw e (clamp_low-IsUnit F o r.confidence);
          })
          t)

  index_items-IsTable :
      (memory : MemoryEnvelope Float) (items : List (RelationItem Float))
      (rows : List (GraphRow Float))
      → IsOrder F
      → IsTable rows
      → IsTable (index_items F lower memory items rows).0
  unfolding index_items
  index_items-IsTable memory [] rows o t = t
  index_items-IsTable memory (item ∷ items) rows o t =
      elim (Option-cases
        (add_relation F lower (item_relation F lower memory item) item.graph_name rows)) [
          | inl e ↦ rw (e, index_items) t
          | inr ((rows', relation), e) ↦
              rw (e, index_items)
                (index_items-IsTable memory items rows' o (
                  add_relation-IsTable (item_relation F lower memory item) item.graph_name rows
                    rows' relation o t e))
        ]

  -- Indexing a memory keeps the table valid, also when one of its relations is refused: all rows have
  -- an allowed graph name, names that are not empty, and a confidence between 0 and 1, and no two
  -- rows have equal keys with both times given.
  pub index_memory-IsTable :
      (memory : MemoryEnvelope Float) (rows : List (GraphRow Float))
      → IsOrder F
      → IsTable rows
      → IsTable (index_memory F lower memory rows).0
  unfolding index_memory
  index_memory-IsTable memory rows o t = index_items-IsTable memory memory.relations rows o t

  any_of-open :
      (row : GraphRow Float) (rows : List (GraphRow Float))
      → (given row.relation.valid_from && given row.relation.valid_to) ≡ false
      → any_of (same_key F lower row) rows ≡ false
  unfolding any_of same_key
  any_of-open row [] h = refl
  any_of-open row (x ∷ xs) h = ground (arith, any_of-open row xs)

  -- The table's constraint does not see a relation whose validity is open on a side, so that it is
  -- stored again each time that it is added.
  pub add_relation_repeats :
      (r : TemporalRelation Float) (graph_name : Option Text) (rows rows' : List (GraphRow Float))
      (relation : TemporalRelation Float)
      → (given r.valid_from && given r.valid_to) ≡ false
      → add_relation F lower r graph_name rows ≡ some (rows', relation)
      → rows' ≡ rows ++ row_of F lower relation ∷ []
  unfolding insert_row
  add_relation_repeats r graph_name rows rows' relation p h =
      let (name, g, e, n, w) = add_relation-some r graph_name rows rows' relation h in
      w ∙ ground (arith, any_of-open (row_of F lower relation) rows (rw e p))
