-- ===== src/Mobius/Axis.antt =====
-- `_reflect_axis`: a position on a line that is folded at both ends.
use native.Mathlib.Nat.{mod-eq_of_lt}
use agent_memory_living_memo.Prelude.{
  ℕ, ◌+◌, ◌-◌, ◌*◌, ◌<◌, ◌≡◌, ◌⊎◌, inl, inr, arith, leb, true, false, Bool-cases,
}
use agent_memory_living_memo.Prelude.Int.{ℤ, pos, pos_part, neg_part, mod_ℤ, mod_ℤ-lt}
use agent_memory_living_memo.Prelude.Int.Mod.{mod_ℤ-IsMod, mod_ℤ_of_IsMod}
use agent_memory_living_memo.Mobius.{reflect_axis}

-- the fold of a remainder
abbrev fold : ℕ → ℕ → ℕ
fold size p = elim (leb size p) [ true ↦ 2 * (size - 1) - p | false ↦ p ]

reflect-fold :
    (x : ℤ) (size : ℕ) → 1 < size → reflect_axis x size ≡ fold size (mod_ℤ x (2 * (size - 1)))
unfolding reflect_axis
reflect-fold x size h = ground arith

fold-lt : (size p : ℕ) → p < 2 * (size - 1) → fold size p < size
fold-lt size p h = ground arith

-- the result is a position on the axis
pub reflect_axis-lt : (x : ℤ) (size : ℕ) → 0 < size → reflect_axis x size < size
unfolding reflect_axis
reflect_axis-lt x size h = ground (arith, mod_ℤ-lt x (2 * (size - 1)))

-- a position on the axis stays
pub reflect_axis_of_lt : (n size : ℕ) → n < size → reflect_axis (pos n) size ≡ n
unfolding reflect_axis mod_ℤ
reflect_axis_of_lt n size h = ground (arith, mod-eq_of_lt {n = n} {m = 2 * (size - 1)})

-- `a` and `b` differ by a multiple of `m`
pub record IsCongr (m : ℕ) (a b : ℤ) : Type 0 where
  pub up : ℕ
  pub down : ℕ
  pub balance : pos_part a + neg_part b + up * m ≡ neg_part a + pos_part b + down * m

-- congruent numbers have the same remainder
pub mod_ℤ-congr : (m : ℕ) (a b : ℤ) → 0 < m → IsCongr m a b → mod_ℤ a m ≡ mod_ℤ b m
mod_ℤ-congr m a b h c =
    let r = mod_ℤ-IsMod b m h in
    mod_ℤ_of_IsMod a m (mod_ℤ b m) (record {
      up = c.up + r.up;
      down = c.down + r.down;
      balance = grind (arith, c.balance, r.balance);
      below = r.below;
    })

-- numbers a period apart are reflected to one position
pub reflect_axis-congr :
    (size : ℕ) (a b : ℤ) → IsCongr (2 * (size - 1)) a b → reflect_axis a size ≡ reflect_axis b size
unfolding reflect_axis
reflect_axis-congr size a b c = ground (arith, mod_ℤ-congr (2 * (size - 1)) a b)

-- `a` and `-b` differ by a multiple of `m`
pub record IsAnti (m : ℕ) (a b : ℤ) : Type 0 where
  pub up : ℕ
  pub down : ℕ
  pub balance : pos_part a + pos_part b + up * m ≡ neg_part a + neg_part b + down * m

mod_ℤ-anti-zero : (m : ℕ) (a b : ℤ) → 0 < m → IsAnti m a b → mod_ℤ b m ≡ 0 → mod_ℤ a m ≡ 0
mod_ℤ-anti-zero m a b h c z =
    let r = mod_ℤ-IsMod b m h in
    mod_ℤ_of_IsMod a m 0 (record {
      up = c.up + r.down;
      down = c.down + r.up;
      balance = grind (arith, c.balance, r.balance, z);
      below = h;
    })

mod_ℤ-anti : (m : ℕ) (a b : ℤ) → 0 < m → IsAnti m a b → 0 < mod_ℤ b m → mod_ℤ a m ≡ m - mod_ℤ b m
mod_ℤ-anti m a b h c z =
    let r = mod_ℤ-IsMod b m h in
    mod_ℤ_of_IsMod a m (m - mod_ℤ b m) (record {
      up = c.up + r.down + 1;
      down = c.down + r.up;
      balance = omega (arith, r.balance, r.below, c.balance);
      below = omega (arith, r.below);
    })

fold-anti :
    (size p q : ℕ)
    → p < 2 * (size - 1)
    → ((p ≡ 0) × (q ≡ 0)) ⊎ (q ≡ 2 * (size - 1) - p)
    → fold size q ≡ fold size p
fold-anti size p q h e = ground arith

anti-cases :
    (m : ℕ) (a b : ℤ)
    → 0 < m
    → IsAnti m a b
    → ((mod_ℤ b m ≡ 0) × (mod_ℤ a m ≡ 0)) ⊎ (mod_ℤ a m ≡ m - mod_ℤ b m)
anti-cases m a b h c = elim (Bool-cases (leb (mod_ℤ b m) 0)) [
  | inl z ↦ let e : mod_ℤ b m ≡ 0 = ground arith in inl (e, mod_ℤ-anti-zero m a b h c e)
  | inr z ↦ inr (mod_ℤ-anti m a b h c (ground arith))
]

-- the fold is the same on both sides of its edge
pub reflect_axis-anti :
    (size : ℕ) (a b : ℤ) → IsAnti (2 * (size - 1)) a b → reflect_axis a size ≡ reflect_axis b size
unfolding reflect_axis
reflect_axis-anti size a b c =
    ground (arith, anti-cases (2 * (size - 1)) a b, mod_ℤ-lt b (2 * (size - 1)))

reflect_high :
    (x : ℤ) (size : ℕ)
    → 1 < size
    → leb size (mod_ℤ x (2 * (size - 1))) ≡ true
    → reflect_axis x size ≡ 2 * (size - 1) - mod_ℤ x (2 * (size - 1))
unfolding reflect_axis
reflect_high x size h e = ground arith

reflect_low :
    (x : ℤ) (size : ℕ)
    → 1 < size
    → leb size (mod_ℤ x (2 * (size - 1))) ≡ false
    → reflect_axis x size ≡ mod_ℤ x (2 * (size - 1))
unfolding reflect_axis
reflect_low x size h e = ground arith

-- the position that is found is congruent to the number or to its opposite
pub reflect_axis-cases :
    (x : ℤ) (size : ℕ)
    → 1 < size
    → IsCongr (2 * (size - 1)) (pos (reflect_axis x size)) x
      ⊎ IsAnti (2 * (size - 1)) (pos (reflect_axis x size)) x
reflect_axis-cases x size h =
    let P = 2 * (size - 1) in
    let r = mod_ℤ-IsMod x P (omega arith) in
    elim (Bool-cases (leb size (mod_ℤ x P))) [
      | inl e ↦ inr (record {
        up = r.up;
        down = r.down + 1;
        balance = omega (arith, reflect_high x size h e, r.balance, r.below);
      })
      | inr e ↦ inl (record {
        up = r.down;
        down = r.up;
        balance = omega (arith, reflect_low x size h e, r.balance);
      })
    ]
