-- ===== src/Prelude/Equality.antt =====
-- Types whose values the program compares with `==`: numbers, text, and pairs of such.
use Prim.Native.Nat.{ℕ, zero, suc}
use Prim.Native.Char.{code}
use Prim.Native.String.{String}
use mathlib.Core.Path.{◌≡◌, refl}
use mathlib.Core.Logic.{◌↔◌, inl, inr}
use mathlib.Core.Bool.{Bool, true, false, ◌&&◌, ◌||◌}
use mathlib.Core.List.{List, [], ◌∷◌, ◌++◌}
use native.Mathlib.Omega.{arith}
use agent_memory_living_memo.Prelude.Tests.{nat_eq, nat_eq_iff, if◌then◌else◌, Bool-cases}
use agent_memory_living_memo.Prelude.Lists.{take, filter_by}

pub record Eq {ℓ} (A : Type ℓ) : Type ℓ where
  pub same : A → A → Bool
  pub same_iff : (a b : A) → (same a b ≡ true) ↔ (a ≡ b)

infix 50 ◌==◌
abbrev pub ◌==◌ {ℓ} : {A : Type ℓ} ⦃e : Eq A⦄ → A → A → Bool
◌==◌ ⦃e⦄ = e.same

-- Python's `str`, as its code points.
abbrev pub Text : Type 0
Text = List ℕ

-- The code points of a literal.
abbrev pub codes : String → Text
codes String.[] = []
codes (String.◌∷◌ c s) = code c ∷ codes s

unfoldable pub text_eq : Text → Text → Bool
text_eq [] [] = true
text_eq [] (d ∷ t) = false
text_eq (c ∷ s) [] = false
text_eq (c ∷ s) (d ∷ t) = nat_eq c d && text_eq s t

text_eq→eq : (s t : Text) → text_eq s t ≡ true → s ≡ t
unfolding text_eq
text_eq→eq [] [] h = refl
text_eq→eq [] (d ∷ t) h = cc
text_eq→eq (c ∷ s) [] h = cc
text_eq→eq (c ∷ s) (d ∷ t) h = ground (arith, text_eq→eq s t)

text_eq_refl : (s : Text) → text_eq s s ≡ true
unfolding text_eq
text_eq_refl [] = refl
text_eq_refl (c ∷ s) = ground (arith, text_eq_refl s)

pub text_eq_iff : (s t : Text) → (text_eq s t ≡ true) ↔ (s ≡ t)
text_eq_iff s t = (text_eq→eq s t, λ e. rw e (text_eq_refl t))

instance abbrev pub ℕ_eq : Eq ℕ
ℕ_eq = record { same = nat_eq; same_iff = nat_eq_iff }

instance abbrev pub Text_eq : Eq Text
Text_eq = record { same = text_eq; same_iff = text_eq_iff }

pub beq_self {ℓ} : {A : Type ℓ} ⦃e : Eq A⦄ (a : A) → (a == a) ≡ true
beq_self ⦃e⦄ a = (e.same_iff a a).1 refl

module _ {ℓ} {A : Type ℓ} ⦃e : Eq A⦄ where
  -- `x in xs`
  unfoldable pub contains : List A → A → Bool
  contains [] a = false
  contains (x ∷ xs) a = x == a || contains xs a

  -- `list(dict.fromkeys(xs))`: the first occurrence of each, in order
  unfoldable pub dedup_from : List A → List A → List A
  dedup_from seen [] = []
  dedup_from seen (x ∷ xs) =
      if contains seen x then dedup_from seen xs else x ∷ dedup_from (x ∷ seen) xs

  unfoldable pub dedup : List A → List A
  unfolding dedup_from contains
  dedup = dedup_from []

  -- no value occurs twice
  abbrev pub Distinct : List A → Type 0
  Distinct [] = Unit
  Distinct (x ∷ xs) = (contains xs x ≡ false) × Distinct xs

  dedup_from-fresh :
      (a : A) (seen xs : List A) → contains seen a ≡ true → contains (dedup_from seen xs) a ≡ false
  unfolding dedup_from contains
  dedup_from-fresh a seen [] h = refl
  dedup_from-fresh a seen (x ∷ xs) h =
      ground (arith, e.same_iff x a, dedup_from-fresh a seen xs, dedup_from-fresh a (x ∷ seen) xs)

  dedup_from-Distinct : (seen xs : List A) → Distinct (dedup_from seen xs)
  unfolding dedup_from contains
  dedup_from-Distinct seen [] = tt
  dedup_from-Distinct seen (x ∷ xs) = ground (
    arith,
    dedup_from-fresh x (x ∷ seen) xs,
    dedup_from-Distinct seen xs,
    dedup_from-Distinct (x ∷ seen) xs,
    e.same_iff x x,
  )

  pub dedup-Distinct : (xs : List A) → Distinct (dedup xs)
  unfolding dedup
  dedup-Distinct xs = dedup_from-Distinct [] xs

  contains-dedup_from :
      (a : A) (seen xs : List A)
      → contains seen a ≡ false
      → contains (dedup_from seen xs) a ≡ contains xs a
  unfolding dedup_from contains
  contains-dedup_from a seen [] h = refl
  contains-dedup_from a seen (x ∷ xs) h =
      ground
        (arith, e.same_iff x a, contains-dedup_from a seen xs, contains-dedup_from a (x ∷ seen) xs)

  -- the same values occur
  pub contains-dedup : (a : A) (xs : List A) → contains (dedup xs) a ≡ contains xs a
  unfolding dedup contains
  contains-dedup a xs = contains-dedup_from a [] xs refl

  pub contains-take :
      (n : ℕ) (a : A) (xs : List A) → contains xs a ≡ false → contains (take n xs) a ≡ false
  unfolding contains take
  contains-take zero a xs h = refl
  contains-take (suc n) a [] h = refl
  contains-take (suc n) a (x ∷ xs) h = ground (arith, contains-take n a xs)

  pub take-Distinct : (n : ℕ) (xs : List A) → Distinct xs → Distinct (take n xs)
  unfolding take
  take-Distinct zero xs d = tt
  take-Distinct (suc n) [] d = tt
  take-Distinct (suc n) (x ∷ xs) d = (contains-take n x xs d.0, take-Distinct n xs d.1)

  pub contains-filter_by :
      (p : A → Bool) (a : A) (xs : List A) → contains (filter_by p xs) a ≡ (p a && contains xs a)
  unfolding contains filter_by
  contains-filter_by p a [] = ground arith
  contains-filter_by p a (x ∷ xs) = elim (Bool-cases (x == a)) [
    | inl q ↦
        let q' : x ≡ a = (e.same_iff x a).0 q in
        rw q' (ground (arith, contains-filter_by p a xs, e.same_iff a a))
    | inr q ↦ ground (arith, contains-filter_by p a xs)
  ]

  pub filter_by-Distinct : (p : A → Bool) (xs : List A) → Distinct xs → Distinct (filter_by p xs)
  unfolding filter_by
  filter_by-Distinct p [] d = tt
  filter_by-Distinct p (x ∷ xs) d =
      ground (arith, filter_by-Distinct p xs, contains-filter_by p x xs)

  pub contains-append :
      (a : A) (xs ys : List A) → contains (xs ++ ys) a ≡ (contains xs a || contains ys a)
  unfolding contains
  contains-append a [] ys = refl
  contains-append a (x ∷ xs) ys = ground (arith, contains-append a xs ys)
