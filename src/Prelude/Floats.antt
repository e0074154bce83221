-- ===== src/Prelude/Floats.antt =====
-- Python's `float`: a type with its operations, which is no code of the repository. Proofs rely on
-- the order laws of `IsOrder` alone, which hold of the floats but for NaN; no law of rounding
-- arithmetic is assumed.
use Prim.Native.Nat.{ℕ, ◌+◌, ◌-◌, ◌*◌, ◌/◌}
use mathlib.Core.Path.{◌≡◌, refl}
use mathlib.Core.Bool.{Bool, true, false, not}
use native.Mathlib.Omega.{arith}
use agent_memory_living_memo.Prelude.Tests.{ltb, if◌then◌else◌, Bool-cases}
use mathlib.Core.Logic.{inl, inr}

pub record Floats : Type 1 where
  pub Float : Type 0
  -- `x < y`
  pub lt : Float → Float → Bool
  pub add : Float → Float → Float
  pub sub : Float → Float → Float
  pub mul : Float → Float → Float
  pub div : Float → Float → Float
  -- `float(n)` of a natural number
  pub of_ℕ : ℕ → Float
  -- a literal with two decimals: `hundredths 65` is `0.65`
  pub hundredths : ℕ → Float
  pub log1p : Float → Float
  pub exp_neg : Float → Float

pub record IsOrder (F : Floats) : Type 0 where
  pub irrefl : (x : F.Float) → F.lt x x ≡ false
  pub trans : (x y z : F.Float) → F.lt x y ≡ true → F.lt y z ≡ true → F.lt x z ≡ true
  -- of three floats, one that is below another is below the third or has the third below it
  pub cotrans : (x y z : F.Float) → F.lt x z ≡ true → F.lt x y ≡ false → F.lt y z ≡ true
  pub zero-lt-one : F.lt (F.of_ℕ 0) (F.of_ℕ 1) ≡ true

module _ (F : Floats) where
  open F use {Float, lt, of_ℕ}

  -- `x <= y`, for floats that are no NaN
  abbrev pub le : Float → Float → Bool
  le x y = not (lt y x)

  -- `max(x, y)`: the first of the two unless the second is greater
  unfoldable pub fmax : Float → Float → Float
  fmax x y = if lt x y then y else x

  -- `min(x, y)`: the first of the two unless the second is less
  unfoldable pub fmin : Float → Float → Float
  fmin x y = if lt y x then y else x

  -- `min(1.0, max(0.0, x))`
  unfoldable pub clamp : Float → Float
  unfolding fmax fmin
  clamp x = fmin (of_ℕ 1) (fmax (of_ℕ 0) x)

  -- `max(0.0, min(1.0, x))`
  unfoldable pub clamp_low : Float → Float
  unfolding fmax fmin
  clamp_low x = fmax (of_ℕ 0) (fmin (of_ℕ 1) x)

  -- between 0 and 1
  pub record IsUnit (x : Float) : Type 0 where
    pub low : lt x (of_ℕ 0) ≡ false
    pub high : lt (of_ℕ 1) x ≡ false

  pub fmax-IsUnit : (x y : Float) → IsUnit x → IsUnit y → IsUnit (fmax x y)
  unfolding fmax
  fmax-IsUnit x y p q = elim (Bool-cases (lt x y)) [
    | inl e ↦ rw (e, fmax) q
    | inr e ↦ rw (e, fmax) p
  ]

  module _ (o : IsOrder F) where
    open o use {irrefl, trans, cotrans, zero-lt-one}

    pub asym : (x y : Float) → lt x y ≡ true → lt y x ≡ false
    asym x y h = ground (arith, trans x y x, irrefl x)

    pub clamp-IsUnit : (x : Float) → IsUnit (clamp x)
    unfolding clamp
    clamp-IsUnit x = ground (
      arith,
      zero-lt-one,
      asym (of_ℕ 0) (of_ℕ 1),
      irrefl (of_ℕ 0),
      irrefl (of_ℕ 1),
      asym (of_ℕ 0) x,
      asym x (of_ℕ 1),
    )

    pub clamp_low-IsUnit : (x : Float) → IsUnit (clamp_low x)
    unfolding clamp_low
    clamp_low-IsUnit x = ground (
      arith,
      zero-lt-one,
      asym (of_ℕ 0) (of_ℕ 1),
      irrefl (of_ℕ 0),
      irrefl (of_ℕ 1),
      asym (of_ℕ 0) x,
      asym x (of_ℕ 1),
    )

    -- `not (y < x)` is a total order
    pub le_total : (x y : Float) → le x y ≡ false → le y x ≡ true
    le_total x y h = ground (arith, asym x y, asym y x)

    pub le_trans : (x y z : Float) → le x y ≡ true → le y z ≡ true → le x z ≡ true
    le_trans x y z p q = ground (arith, cotrans z y x)

-- Fixed-point numbers, in hundredths: a concrete value of the interface, for tests and examples.
abbrev pub cents : Floats
cents = record {
  Float = ℕ;
  lt = ltb;
  add = ◌+◌;
  sub = ◌-◌;
  mul = λ x y. x * y / 100;
  div = λ x y. x * 100 / y;
  of_ℕ = λ n. n * 100;
  hundredths = λ n. n;
  log1p = λ x. x;
  exp_neg = λ x. 100 - x;
}

pub cents-IsOrder : IsOrder cents
cents-IsOrder = record {
  irrefl = λ x. ground arith;
  trans = λ x y z p q. ground arith;
  cotrans = λ x y z p q. ground arith;
  zero-lt-one = refl;
}
