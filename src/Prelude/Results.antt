-- ===== src/Prelude/Results.antt =====
-- A call that returns a value or raises an error.
use mathlib.Core.Bool.{Bool, true, false}
use mathlib.Core.Path.{◌≡◌, refl, ap, subst}
use mathlib.Core.Logic.{◌⊎◌, inl, inr}
use agent_memory_living_memo.Prelude.Tests.{if◌then◌else◌}

pub data Result {ℓ κ} (E : Type ℓ) (A : Type κ) : Type (ℓ ⊔ κ) where
  raised : E → Result E A
  done : A → Result E A

module _ {ℓ κ μ} {E : Type ℓ} {A : Type κ} {B : Type μ} where
  -- the next statement, unless the first one raises
  abbrev pub and_then : Result E A → (A → Result E B) → Result E B
  and_then (raised e) f = raised e
  and_then (done a) f = f a

module _ {ℓ κ} {E : Type ℓ} {A : Type κ} where
  abbrev pub is_done : Result E A → Bool
  is_done (raised e) = false
  is_done (done a) = true

  pub Result-cases : (r : Result E A) → ((e : E) × (r ≡ raised e)) ⊎ ((a : A) × (r ≡ done a))
  Result-cases (raised e) = inl (e, refl)
  Result-cases (done a) = inr (a, refl)

-- what was done before a result
pub and_then-done {ℓ κ μ} :
    {E : Type ℓ} {A : Type κ} {B : Type μ} (r : Result E A) (f : A → Result E B) {b : B}
    → and_then r f ≡ done b
    → (a : A) × (r ≡ done a) × (f a ≡ done b)
and_then-done (raised e) f {b} h =
    absurd (subst (λ r. elim r [ raised _ ↦ Unit | done _ ↦ ⊥ ]) h tt)
and_then-done (done a) f {b} h = (a, refl, h)

module _ {ℓ κ} {E : Type ℓ} {A : Type κ} where
  pub done_injective : {a b : A} → Path (Result E A) (done a) (done b) → a ≡ b
  done_injective {a} {b} h = ap (λ (r : Result E A). elim r [ raised _ ↦ a | done x ↦ x ]) h

  -- what a guard that raises lets through
  pub guard-done :
      (b : Bool) (e : E) (r : Result E A) {a : A}
      → (if b then raised e else r) ≡ done a
      → (b ≡ false) × (r ≡ done a)
  guard-done true e r {a} h = absurd (subst (λ r. elim r [ raised _ ↦ Unit | done _ ↦ ⊥ ]) h tt)
  guard-done false e r {a} h = (refl, h)

  -- what a test that must hold lets through
  pub test-done :
      (b : Bool) (r : Result E A) (e : E) {a : A}
      → (if b then r else raised e) ≡ done a
      → (b ≡ true) × (r ≡ done a)
  test-done true r e h = (refl, h)
  test-done false r e {a} h = absurd (subst (λ r. elim r [ raised _ ↦ Unit | done _ ↦ ⊥ ]) h tt)

  pub raised_not_done : {e : E} {a : A} → Path (Result E A) (raised e) (done a) → ⊥
  raised_not_done h = subst (λ (r : Result E A). elim r [ raised _ ↦ Unit | done _ ↦ ⊥ ]) h tt
