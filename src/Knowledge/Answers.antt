-- ===== src/Knowledge/Answers.antt =====
-- What queries over assertions return.
use agent_memory_living_memo.Prelude.{
  ℕ, Bool, true, false, not, ◌==◌, ◌||◌, arith, inl, inr, Bool-cases, and_true, contains,
  contains-filter_by, text_eq_iff, Text_eq, ◌∙◌, Option, none, some, List, [], ◌∷◌, Text, all_of,
  subst, sym, refl, All, All-take, All-filter_by, filter_by-All, length, length-take-le, filter_by,
  is_empty, if◌then◌else◌, ◌≡◌, ◌≤◌, map,
}
use agent_memory_living_memo.Prelude.Floats.{Floats, le}
use agent_memory_living_memo.Prelude.Dict
use agent_memory_living_memo.Prelude.Strings.{norm}
use agent_memory_living_memo.Schema.Values.{Json, json_eq}
use agent_memory_living_memo.Graph.{same_time, of_bool}
use agent_memory_living_memo.Prelude.Sort.{sort_by, sort_by-All}
use agent_memory_living_memo.Schema.{Dict}
use agent_memory_living_memo.Knowledge.{KnowledgeAssertion, KnowledgeGraph}
use agent_memory_living_memo.Knowledge.Queries.{
  AssertionFilter, satisfies, in_scope, surer, cut, fourfold, query, asked_for, holds_at,
  without_empty,
}

not-true : (b : Bool) → not b ≡ true → b ≡ false
not-true b h = ground (arith, h)

none_within : (xs : List Text) (a : Text) → is_empty xs ≡ true → contains xs a ≡ true → ⊥
unfolding contains is_empty
none_within [] a e h = ground (arith, h)
none_within (x ∷ xs) a e h = ground (arith, e)

module _ (F : Floats) (lower : Text → Text) where
  open F use {Float, lt}

  -- the rows pass the clauses of the query
  abbrev Passes : AssertionFilter Float → KnowledgeAssertion Float → Type 0
  Passes f a = satisfies F lower f a ≡ true

  -- What is asked of an assertion: its status, its names up to normal form, its source and a time at
  -- which it holds, each if the query names one.
  pub record Satisfies (f : AssertionFilter Float) (a : KnowledgeAssertion Float) : Type 0 where
    pub status : is_empty f.status ≡ false → a.status ≡ f.status
    pub subject : (v : Text) → f.subject ≡ some v → norm lower a.subject ≡ norm lower v
    pub predicate : (v : Text) → f.predicate ≡ some v → norm lower a.predicate ≡ norm lower v
    pub object : (v : Text) → f.object ≡ some v → norm lower a.object ≡ norm lower v
    pub source :
        (id : Text)
        → contains f.memory_ids id ≡ true
        → is_empty id ≡ false
        → contains f.memory_ids a.source_memory_id ≡ true
    pub begun : (t from : Float) → f.at_time ≡ some t → a.valid_from ≡ some from → lt t from ≡ false
    pub lasting : (t to : Float) → f.at_time ≡ some t → a.valid_to ≡ some to → lt to t ≡ false

  asked_name :
      (o : Option Text) (column v : Text)
      → asked_for F lower o column ≡ true
      → o ≡ some v
      → column ≡ norm lower v
  asked_name o column v h e =
      (text_eq_iff column (norm lower v)).0 (subst (λ o. asked_for F lower o column ≡ true) e h)

  holds-begun :
      (o : Option Float) (a : KnowledgeAssertion Float) (t from : Float)
      → holds_at F lower o a ≡ true
      → o ≡ some t
      → a.valid_from ≡ some from
      → lt t from ≡ false
  holds-begun o a t from h e v =
      let h' : holds_at F lower (some t) a ≡ true = subst (λ o. holds_at F lower o a ≡ true) e h in
      let p : le F from t ≡ true =
        subst (λ (w : Option Float). (elim w [ none ↦ true | some f ↦ le F f t ]) ≡ true) v
          (and_true _ _ h').0 in
      not-true (lt t from) p

  holds-lasting :
      (o : Option Float) (a : KnowledgeAssertion Float) (t to : Float)
      → holds_at F lower o a ≡ true
      → o ≡ some t
      → a.valid_to ≡ some to
      → lt to t ≡ false
  holds-lasting o a t to h e v =
      let h' : holds_at F lower (some t) a ≡ true = subst (λ o. holds_at F lower o a ≡ true) e h in
      let p : le F t to ≡ true =
        subst (λ (w : Option Float). (elim w [ none ↦ true | some f ↦ le F t f ]) ≡ true) v
          (and_true _ _ h').1 in
      not-true (lt to t) p

  filled_source :
      (ids : List Text) (source id : Text)
      → (is_empty (without_empty ids) || contains (without_empty ids) source) ≡ true
      → contains ids id ≡ true
      → is_empty id ≡ false
      → contains ids source ≡ true
  filled_source ids source id h among filled =
      let kept : contains (without_empty ids) id ≡ true =
        contains-filter_by (λ item. not (is_empty item)) id ids ∙ rw (filled, among) refl in
      elim (Bool-cases (is_empty (without_empty ids))) [
        | inl e ↦ absurd (none_within (without_empty ids) id e kept)
        | inr e ↦
            (and_true _ _
              (sym (contains-filter_by (λ item. not (is_empty item)) source ids) ∙ (rw e at h))).1
      ]

  Passes-Satisfies :
      (f : AssertionFilter Float) (a : KnowledgeAssertion Float) → Passes f a → Satisfies f a
  unfolding satisfies
  Passes-Satisfies f a h =
      let (h₅, time) = and_true _ _ h in
      let (h₄, source) = and_true _ _ h₅ in
      let (h₃, object) = and_true _ _ h₄ in
      let (h₂, predicate) = and_true _ _ h₃ in
      let (status, subject) =
        and_true (is_empty f.status || (a.status == f.status))
          (asked_for F lower f.subject (norm lower a.subject)) h₂ in
      record {
        status = λ filled. (text_eq_iff a.status f.status).0 (ground (arith, filled, status));
        subject = λ v. asked_name f.subject (norm lower a.subject) v subject;
        predicate = λ v. asked_name f.predicate (norm lower a.predicate) v predicate;
        object = λ v. asked_name f.object (norm lower a.object) v object;
        source = λ id. filled_source f.memory_ids a.source_memory_id id source;
        begun = λ t from. holds-begun f.at_time a t from time;
        lasting = λ t to. holds-lasting f.at_time a t to time;
      }

  -- the assertion's scope has what the query's has
  abbrev Within : Dict Float → KnowledgeAssertion Float → Type 0
  Within scope a = in_scope F lower scope a.scope ≡ true

  cut-All :
      (P : KnowledgeAssertion Float → Type 0) (n : Option ℕ) (xs : List (KnowledgeAssertion Float))
      → All P xs
      → All P (cut F lower n xs)
  cut-All P none xs h = h
  cut-All P (some n) xs h = All-take P n xs h

  -- the rows that the SQL query returns
  abbrev rows_of : AssertionFilter Float → KnowledgeGraph Float → List (KnowledgeAssertion Float)
  rows_of f k =
      cut F lower (fourfold F lower f.limit) (
        sort_by (surer F lower) (filter_by (satisfies F lower f) (map (λ row. row.1) k.assertions)))

  rows-Passes :
      (f : AssertionFilter Float) (k : KnowledgeGraph Float) → All (Passes f) (rows_of f k)
  rows-Passes f k =
      cut-All (Passes f) (fourfold F lower f.limit) _
        (sort_by-All (surer F lower) (Passes f) _ (filter_by-All (satisfies F lower f) _))

  all-Satisfies :
      (f : AssertionFilter Float) (xs : List (KnowledgeAssertion Float))
      → All (Passes f) xs
      → All (Satisfies f) xs
  all-Satisfies f [] h = tt
  all-Satisfies f (a ∷ xs) h = (Passes-Satisfies f a h.0, all-Satisfies f xs h.1)

  -- the rows in the scope
  abbrev scoped : Dict Float → List (KnowledgeAssertion Float) → List (KnowledgeAssertion Float)
  scoped scope rows =
      if is_empty scope then rows else filter_by (λ a. in_scope F lower scope a.scope) rows

  scoped-All :
      (P : KnowledgeAssertion Float → Type 0) (scope : Dict Float)
      (rows : List (KnowledgeAssertion Float))
      → All P rows
      → All P (scoped scope rows)
  unfolding is_empty
  scoped-All P [] rows h = h
  scoped-All P (item ∷ scope) rows h =
      All-filter_by P (λ a. in_scope F lower (item ∷ scope) a.scope) rows h

  scoped-Within :
      (scope : Dict Float) (rows : List (KnowledgeAssertion Float))
      → All (Within scope) (scoped scope rows)
  unfolding is_empty in_scope all_of
  scoped-Within [] [] = tt
  scoped-Within [] (a ∷ rows) = (refl, scoped-Within [] rows)
  scoped-Within (item ∷ scope) rows =
      filter_by-All (λ a. in_scope F lower (item ∷ scope) a.scope) rows

  -- the scope has a value equal to each that is asked for, where a missing one is null
  abbrev pub InScope : Dict Float → KnowledgeAssertion Float → Type 0
  InScope scope a =
      All
        (λ item.
          json_eq (same_time F lower) (of_bool F lower)
            (elim (Dict.get item.0 a.scope) [ none ↦ Json.null | some v ↦ v ]) item.1
          ≡ true)
        scope

  Within-InScope :
      (scope : Dict Float) (a : KnowledgeAssertion Float) → Within scope a → InScope scope a
  unfolding in_scope all_of
  Within-InScope [] a h = tt
  Within-InScope (item ∷ scope) a h =
      let (first, rest) = and_true _ _ h in (first, Within-InScope scope a rest)

  all-InScope :
      (scope : Dict Float) (xs : List (KnowledgeAssertion Float))
      → All (Within scope) xs
      → All (InScope scope) xs
  all-InScope scope [] h = tt
  all-InScope scope (a ∷ xs) h = (Within-InScope scope a h.0, all-InScope scope xs h.1)

  -- Every assertion that a query returns has the status, the names, up to normal form, and one of the
  -- sources that are asked for, holds at the time that is asked for, and has in its scope a value
  -- equal to each that is asked for, where a missing value is null. What is not asked for, or is
  -- empty, is no condition. With a limit, no more are returned.
  pub query-Satisfies :
      (f : AssertionFilter Float) (k : KnowledgeGraph Float)
      → All (Satisfies f) (query F lower f k)
        × All (InScope f.scope) (query F lower f k)
        × ((limit : ℕ) → f.limit ≡ some limit → length (query F lower f k) ≤ limit)
  unfolding query
  query-Satisfies f k =
      let rows = rows_of f k in
      (
        all-Satisfies f _ (
            cut-All (Passes f) f.limit (scoped f.scope rows)
              (scoped-All (Passes f) f.scope rows (rows-Passes f k))),
        all-InScope f.scope _
            (cut-All (Within f.scope) f.limit (scoped f.scope rows) (scoped-Within f.scope rows)),
        λ limit e.
            subst (λ (n : Option ℕ). length (cut F lower n (scoped f.scope rows)) ≤ limit) (sym e)
              (length-take-le limit (scoped f.scope rows)),
      )
