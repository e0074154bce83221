-- ===== src/Prelude/Among.antt =====
-- Membership with the place kept, for what comprehensions, loops and sorts produce.
use mathlib.Core.Path.{◌≡◌, refl, ap, ◌∙◌}
use mathlib.Core.Bool.{Bool, true, false, ◌||◌}
use mathlib.Core.Logic.{◌⊎◌, inl, inr}
use mathlib.Core.List.{List, [], ◌∷◌, ◌++◌, map}
use native.Mathlib.Omega.{arith}
use agent_memory_living_memo.Prelude.Tests.{if◌then◌else◌, Bool-cases}
use agent_memory_living_memo.Prelude.Lists.{All, filter_by}
use agent_memory_living_memo.Prelude.Equality.{Eq, ◌==◌, contains, Distinct}
use agent_memory_living_memo.Prelude.Sort.{insert_by, sort_by}

-- `a` is one of the items
abbrev pub Among : {A : Type 0} → A → List A → Type 0
Among a [] = ⊥
Among a (x ∷ xs) = (x ≡ a) ⊎ Among a xs

module _ {A : Type 0} where
  pub Among-left : (a : A) (xs ys : List A) → Among a xs → Among a (xs ++ ys)
  Among-left a [] ys h = absurd h
  Among-left a (x ∷ xs) ys (inl e) = inl e
  Among-left a (x ∷ xs) ys (inr m) = inr (Among-left a xs ys m)

  pub Among-right : (a : A) (xs ys : List A) → Among a ys → Among a (xs ++ ys)
  Among-right a [] ys h = h
  Among-right a (x ∷ xs) ys h = inr (Among-right a xs ys h)

  pub Among-filter_by :
      (a : A) (p : A → Bool) (xs : List A) → p a ≡ true → Among a xs → Among a (filter_by p xs)
  unfolding filter_by
  Among-filter_by a p [] h m = m
  Among-filter_by a p (x ∷ xs) h (inl e) =
      let e' : p x ≡ true = ap p e ∙ h in rw (e', filter_by) (inl e)
  Among-filter_by a p (x ∷ xs) h (inr m) = elim (Bool-cases (p x)) [
    | inl e ↦ rw (e, filter_by) (inr (Among-filter_by a p xs h m))
    | inr e ↦ rw (e, filter_by) (Among-filter_by a p xs h m)
  ]

  kept-Among :
      (a x : A) (p : A → Bool) (xs ys : List A) (b : Bool)
      → p x ≡ b
      → (Among a ys → Among a xs × (p a ≡ true))
      → Among a (if b then x ∷ ys else ys)
      → Among a (x ∷ xs) × (p a ≡ true)
  kept-Among a x p xs ys true e ih (inl here) = (inl here, rw (← here) e)
  kept-Among a x p xs ys true e ih (inr there) = (inr (ih there).0, (ih there).1)
  kept-Among a x p xs ys false e ih there = (inr (ih there).0, (ih there).1)

  pub Among-of_filter_by :
      (a : A) (p : A → Bool) (xs : List A) → Among a (filter_by p xs) → Among a xs × (p a ≡ true)
  unfolding filter_by
  Among-of_filter_by a p [] m = absurd m
  Among-of_filter_by a p (x ∷ xs) m =
      kept-Among a x p xs (filter_by p xs) (p x) refl (Among-of_filter_by a p xs) m

  module _ (P : A → Type 0) where
    pub All-Among : (a : A) (xs : List A) → All P xs → Among a xs → P a
    All-Among a [] h m = absurd m
    All-Among a (x ∷ xs) h (inl e) = rw e at h.0
    All-Among a (x ∷ xs) h (inr m) = All-Among a xs h.1 m

  module _ ⦃e : Eq A⦄ where
    pub Among-of_contains : (a : A) (xs : List A) → contains xs a ≡ true → Among a xs
    unfolding contains
    Among-of_contains a [] h = cc
    Among-of_contains a (x ∷ xs) h = elim (Bool-cases (x == a)) [
      | inl q ↦ inl ((e.same_iff x a).0 q)
      | inr q ↦ inr (Among-of_contains a xs (ground arith))
    ]

    pub contains_of_Among : (a : A) (xs : List A) → Among a xs → contains xs a ≡ true
    unfolding contains
    contains_of_Among a [] m = absurd m
    contains_of_Among a (x ∷ xs) (inl q) = rw ((e.same_iff x a).1 q)
    contains_of_Among a (x ∷ xs) (inr m) = ground (arith, contains_of_Among a xs m)

    contains-insert_by :
        (before : A → A → Bool) (a x : A) (xs : List A)
        → contains (insert_by before x xs) a ≡ contains (x ∷ xs) a
    unfolding insert_by contains
    contains-insert_by before a x [] = refl
    contains-insert_by before a x (y ∷ ys) = ground (arith, contains-insert_by before a x ys)

    pub contains-sort_by :
        (before : A → A → Bool) (a : A) (xs : List A)
        → contains (sort_by before xs) a ≡ contains xs a
    unfolding sort_by contains
    contains-sort_by before a [] = refl
    contains-sort_by before a (x ∷ xs) =
        contains-insert_by before a x (sort_by before xs)
        ∙ ap (λ (b : Bool). x == a || b) (contains-sort_by before a xs)

    insert_by-Distinct :
        (before : A → A → Bool) (x : A) (xs : List A)
        → contains xs x ≡ false
        → Distinct xs
        → Distinct (insert_by before x xs)
    unfolding insert_by contains
    insert_by-Distinct before x [] f d = (refl, tt)
    insert_by-Distinct before x (y ∷ ys) f d = ground (
      arith,
      insert_by-Distinct before x ys,
      contains-insert_by before y x ys,
      e.same_iff x y,
      e.same_iff y x,
    )

    pub sort_by-Distinct :
        (before : A → A → Bool) (xs : List A) → Distinct xs → Distinct (sort_by before xs)
    unfolding sort_by
    sort_by-Distinct before [] d = tt
    sort_by-Distinct before (x ∷ xs) d =
        insert_by-Distinct before x (sort_by before xs) (contains-sort_by before x xs ∙ d.0)
          (sort_by-Distinct before xs d.1)

module _ {A B : Type 0} (f : A → B) where
  pub Among-map : (a : A) (xs : List A) → Among a xs → Among (f a) (map f xs)
  Among-map a [] m = m
  Among-map a (x ∷ xs) (inl e) = inl (ap f e)
  Among-map a (x ∷ xs) (inr m) = inr (Among-map a xs m)

  pub Among-of_map : (b : B) (xs : List A) → Among b (map f xs) → (a : A) × Among a xs × (f a ≡ b)
  Among-of_map b [] m = absurd m
  Among-of_map b (x ∷ xs) (inl e) = (x, inl refl, e)
  Among-of_map b (x ∷ xs) (inr m) = let (a, among, e) = Among-of_map b xs m in (a, inr among, e)
