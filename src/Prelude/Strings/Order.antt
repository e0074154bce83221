-- ===== src/Prelude/Strings/Order.antt =====
-- The order of texts, and `sorted(set(texts))`, which changes nothing when it is done again.
use mathlib.Core.Path.{◌≡◌, refl, ap, ◌∙◌}
use mathlib.Core.Bool.{Bool, true, false}
use mathlib.Core.List.{List, [], ◌∷◌}
use native.Mathlib.Omega.{arith}
use agent_memory_living_memo.Prelude.Lists.{All}
use agent_memory_living_memo.Prelude.Equality.{
  Text, Text_eq, Eq, contains, Distinct, dedup, dedup_from, dedup-Distinct,
}
use agent_memory_living_memo.Prelude.Sort.{insert_by, sort_by, IsSortedBy, sort_by-IsSortedBy}
use agent_memory_living_memo.Prelude.Among.{sort_by-Distinct}
use agent_memory_living_memo.Prelude.Strings.{text_before}

text_before_total : (s t : Text) → text_before s t ≡ false → text_before t s ≡ true
unfolding text_before
text_before_total [] t h = cc
text_before_total (c ∷ s) [] h = refl
text_before_total (c ∷ s) (d ∷ t) h = ground (arith, text_before_total s t)

text_before_trans :
    (s t u : Text) → text_before s t ≡ true → text_before t u ≡ true → text_before s u ≡ true
unfolding text_before
text_before_trans [] t u p q = refl
text_before_trans (c ∷ s) [] u p q = cc
text_before_trans (c ∷ s) (d ∷ t) [] p q = cc
text_before_trans (c ∷ s) (d ∷ t) (e ∷ u) p q = ground (arith, text_before_trans s t u)

-- `sorted({str(item) for item in items})`
unfoldable pub sorted_set : List Text → List Text
unfolding sort_by dedup text_before
sorted_set items = sort_by text_before (dedup items)

module _ {A : Type 0} (before : A → A → Bool) where
  pub sort_by_of_IsSortedBy : (xs : List A) → IsSortedBy before xs → sort_by before xs ≡ xs
  unfolding sort_by insert_by
  sort_by_of_IsSortedBy [] h = refl
  sort_by_of_IsSortedBy (x ∷ []) h = refl
  sort_by_of_IsSortedBy (x ∷ y ∷ ys) h =
      ap (insert_by before x) (sort_by_of_IsSortedBy (y ∷ ys) h.1) ∙ rw (h.0.0, insert_by) refl

module _ {A : Type 0} ⦃e : Eq A⦄ where
  -- none of the items was seen
  abbrev Unseen : List A → List A → Type 0
  Unseen seen xs = All (λ x. contains seen x ≡ false) xs

  Unseen-cons :
      (x : A) (seen xs : List A) → contains xs x ≡ false → Unseen seen xs → Unseen (x ∷ seen) xs
  unfolding contains
  Unseen-cons x seen [] f h = tt
  Unseen-cons x seen (y ∷ ys) f h = (
    ground (arith, h.0, e.same_iff x y, e.same_iff y x),
    Unseen-cons x seen ys (ground arith) h.1,
  )

  dedup_from_of_Distinct :
      (seen xs : List A) → Unseen seen xs → Distinct xs → dedup_from seen xs ≡ xs
  unfolding dedup_from
  dedup_from_of_Distinct seen [] h d = refl
  dedup_from_of_Distinct seen (x ∷ xs) h d =
      rw (h.0, dedup_from)
        (ap (◌∷◌ x) (dedup_from_of_Distinct (x ∷ seen) xs (Unseen-cons x seen xs d.0 h.1) d.1))

  Unseen-none : (xs : List A) → Unseen [] xs
  unfolding contains
  Unseen-none [] = tt
  Unseen-none (x ∷ xs) = (refl, Unseen-none xs)

  pub dedup_of_Distinct : (xs : List A) → Distinct xs → dedup xs ≡ xs
  unfolding dedup
  dedup_of_Distinct xs d = dedup_from_of_Distinct [] xs (Unseen-none xs) d

pub sorted_set-Distinct : (items : List Text) → Distinct (sorted_set items)
unfolding sorted_set
sorted_set-Distinct items = sort_by-Distinct text_before (dedup items) (dedup-Distinct items)

pub sorted_set-sorted_set : (items : List Text) → sorted_set (sorted_set items) ≡ sorted_set items
unfolding sorted_set
sorted_set-sorted_set items =
    ap (sort_by text_before) (dedup_of_Distinct (sorted_set items) (sorted_set-Distinct items))
    ∙ sort_by_of_IsSortedBy text_before (sorted_set items)
        (sort_by-IsSortedBy text_before text_before_total text_before_trans (dedup items))
