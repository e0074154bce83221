-- ===== src/Vault/Order.antt =====
-- The order in a box: its memories stand in the order in which they were first remembered.
use agent_memory_living_memo.Prelude.{
  ℕ, suc, max, leb, Bool, true, false, ◌&&◌, List, [], ◌∷◌, ◌++◌, map, Text, Text_eq, ◌==◌, All,
  any_of, filter_by, contains, Bool-cases, beq_self, ◌≡◌, ◌≤◌, refl, ap, sym, ◌∙◌, subst, inl, inr,
  arith,
}
use mathlib.Core.List.{append-nil}
use agent_memory_living_memo.Prelude.Sort.{IsSortedBy}
use agent_memory_living_memo.Prelude.Strings.Order.{sort_by_of_IsSortedBy}
use agent_memory_living_memo.Store.Search.{add_term}
use agent_memory_living_memo.Vault.{BoxMemory, last_sequence, file_memory}
use agent_memory_living_memo.Vault.Boxes.{box_rows, memory_ids_of}

filter_by-append :
    {A : Type 0} (p : A → Bool) (xs ys : List A)
    → filter_by p (xs ++ ys) ≡ filter_by p xs ++ filter_by p ys
unfolding filter_by
filter_by-append p [] ys = refl
filter_by-append p (x ∷ xs) ys = ground (arith, filter_by-append p xs ys)

end-All :
    {A : Type 0} (before : A → A → Bool) (x : A) (xs : List A) (y : A)
    → All (λ z. before x z ≡ true) xs
    → before x y ≡ true
    → All (λ z. before x z ≡ true) (xs ++ y ∷ [])
end-All before x [] y a e = (e, tt)
end-All before x (z ∷ xs) y a e = (a.0, end-All before x xs y a.1 e)

append-IsSortedBy :
    {A : Type 0} (before : A → A → Bool) (xs : List A) (y : A)
    → IsSortedBy before xs
    → All (λ x. before x y ≡ true) xs
    → IsSortedBy before (xs ++ y ∷ [])
append-IsSortedBy before [] y s a = (tt, tt)
append-IsSortedBy before (x ∷ xs) y s a =
    (end-All before x xs y s.0 a.0, append-IsSortedBy before xs y s.1 a.1)

abbrev earlier : BoxMemory → BoxMemory → Bool
earlier a b = leb a.sequence b.sequence

abbrev in_box : Text → BoxMemory → Bool
in_box box row = row.box_id == box

-- the rows of every box stand in the order of their sequence
abbrev pub IsOrdered : List BoxMemory → Type 0
IsOrdered rows = (box : Text) → IsSortedBy earlier (filter_by (in_box box) rows)

last_sequence-All :
    (box : Text) (n : ℕ) (rows : List BoxMemory)
    → last_sequence box rows ≤ n
    → All (λ row. row.sequence ≤ n) (filter_by (in_box box) rows)
unfolding last_sequence filter_by
last_sequence-All box n [] h = tt
last_sequence-All box n (row ∷ rows) h = elim (Bool-cases (row.box_id == box)) [
  | inl e ↦
      let le : max row.sequence (last_sequence box rows) ≤ n = rw (e, last_sequence) at h in
      rw (e, filter_by) (omega (arith, le), last_sequence-All box n rows (omega (arith, le)))
  | inr e ↦ rw (e, filter_by) (last_sequence-All box n rows (rw (e, last_sequence) at h))
]

-- the row that is filed for a memory
abbrev new_row : Text → Text → List BoxMemory → BoxMemory
new_row box id rows = record {
  box_id = box;
  memory_id = id;
  sequence = suc (last_sequence box rows);
}

earlier-All :
    (n : ℕ) (rows : List BoxMemory) (y : BoxMemory)
    → y.sequence ≡ suc n
    → All (λ row. row.sequence ≤ n) rows
    → All (λ row. earlier row y ≡ true) rows
earlier-All n [] y e h = tt
earlier-All n (row ∷ rows) y e h =
    let le : row.sequence ≤ n = h.0 in (ground (arith, e, le), earlier-All n rows y e h.1)

-- a new row is the last of its box, and of no other box
filed-same :
    (box id : Text) (rows : List BoxMemory)
    → filter_by (in_box box) (rows ++ new_row box id rows ∷ [])
      ≡ filter_by (in_box box) rows ++ new_row box id rows ∷ []
unfolding filter_by
filed-same box id rows =
    filter_by-append (in_box box) rows (new_row box id rows ∷ [])
    ∙ rw (filter_by, beq_self box) refl

filed-other :
    (box other id : Text) (rows : List BoxMemory)
    → (box == other) ≡ false
    → filter_by (in_box other) (rows ++ new_row box id rows ∷ []) ≡ filter_by (in_box other) rows
unfolding filter_by
filed-other box other id rows e =
    filter_by-append (in_box other) rows (new_row box id rows ∷ [])
    ∙ rw (filter_by, e, append-nil) refl

filed-IsOrdered :
    (box id : Text) (rows : List BoxMemory)
    → IsOrdered rows
    → IsOrdered (rows ++ new_row box id rows ∷ [])
filed-IsOrdered box id rows h b = elim (Bool-cases (box == b)) [
  | inl e ↦
      let same : box ≡ b = (Text_eq.same_iff box b).0 e in
      subst
        (λ (c : Text). IsSortedBy earlier (filter_by (in_box c) (rows ++ new_row box id rows ∷ [])))
        same
        (subst (IsSortedBy earlier) (sym (filed-same box id rows)) (
          append-IsSortedBy earlier (filter_by (in_box box) rows) (new_row box id rows) (h box) (
            earlier-All (last_sequence box rows) (filter_by (in_box box) rows) (new_row box id rows)
              refl (last_sequence-All box (last_sequence box rows) rows (omega arith)))))
  | inr e ↦ subst (IsSortedBy earlier) (sym (filed-other box b id rows e)) (h b)
]

file_memory-IsOrdered :
    (box id : Text) (rows : List BoxMemory) → IsOrdered rows → IsOrdered (file_memory box id rows)
unfolding file_memory
file_memory-IsOrdered box id rows h =
    elim (Bool-cases (any_of (λ row. (row.box_id == box) && (row.memory_id == id)) rows)) [
      | inl e ↦ rw (e, file_memory) h
      | inr e ↦ rw (e, file_memory) (filed-IsOrdered box id rows h)
    ]

-- in order, the ids of a box are those of its rows
ordered-ids :
    (box : Text) (rows : List BoxMemory)
    → IsOrdered rows
    → memory_ids_of box rows ≡ map (λ row. row.memory_id) (filter_by (in_box box) rows)
unfolding memory_ids_of box_rows
ordered-ids box rows h =
    ap (map (λ row. row.memory_id))
      (sort_by_of_IsSortedBy earlier (filter_by (in_box box) rows) (h box))

filed_ids :
    (box id : Text) (rows : List BoxMemory)
    → any_of (λ row. (row.box_id == box) && (row.memory_id == id)) rows
      ≡ contains (map (λ row. row.memory_id) (filter_by (in_box box) rows)) id
unfolding any_of filter_by contains
filed_ids box id [] = refl
filed_ids box id (row ∷ rows) = ground (arith, filed_ids box id rows)

map-append : {A B : Type 0} (f : A → B) (xs ys : List A) → map f (xs ++ ys) ≡ map f xs ++ map f ys
map-append f [] ys = refl
map-append f (x ∷ xs) ys = ap (◌∷◌ (f x)) (map-append f xs ys)

-- the ids of a box after a memory is filed in it
filed-ids_of :
    (box id : Text) (rows : List BoxMemory)
    → map (λ row. row.memory_id) (filter_by (in_box box) (file_memory box id rows))
      ≡ add_term id (map (λ row. row.memory_id) (filter_by (in_box box) rows))
unfolding file_memory add_term
filed-ids_of box id rows =
    elim (Bool-cases (any_of (λ row. (row.box_id == box) && (row.memory_id == id)) rows)) [
      | inl e ↦ rw (e, file_memory, ← filed_ids box id rows, add_term, e) refl
      | inr e ↦
          rw (e, file_memory, ← filed_ids box id rows, add_term, e)
            (ap (map (λ row. row.memory_id)) (filed-same box id rows)
              ∙ map-append (λ (row : BoxMemory). row.memory_id) (filter_by (in_box box) rows)
                  (new_row box id rows ∷ []))
    ]

-- and those of another box
filed-other_ids :
    (box other id : Text) (rows : List BoxMemory)
    → (box == other) ≡ false
    → filter_by (in_box other) (file_memory box id rows) ≡ filter_by (in_box other) rows
unfolding file_memory
filed-other_ids box other id rows o =
    elim (Bool-cases (any_of (λ row. (row.box_id == box) && (row.memory_id == id)) rows)) [
      | inl e ↦ rw (e, file_memory) refl
      | inr e ↦ rw (e, file_memory) (filed-other box other id rows o)
    ]

-- In a table whose boxes are in the order of their sequences, filing a memory puts its id at the end
-- of its box, or leaves the box as it is if the id is there; the ids of every other box stay, and so
-- does the order.
pub file_memory-ids :
    (box id : Text) (rows : List BoxMemory)
    → IsOrdered rows
    → (memory_ids_of box (file_memory box id rows) ≡ add_term id (memory_ids_of box rows))
      × ((other : Text)
          → (box == other) ≡ false
          → memory_ids_of other (file_memory box id rows) ≡ memory_ids_of other rows)
      × IsOrdered (file_memory box id rows)
file_memory-ids box id rows h =
    let h' = file_memory-IsOrdered box id rows h in
    (
      ordered-ids box (file_memory box id rows) h'
          ∙ filed-ids_of box id rows
          ∙ ap (add_term id) (sym (ordered-ids box rows h)),
      λ other o.
          ordered-ids other (file_memory box id rows) h'
          ∙ ap (map (λ row. row.memory_id)) (filed-other_ids box other id rows o)
          ∙ sym (ordered-ids other rows h),
      h',
    )
