-- ===== src/Prelude/Int/Mod.antt =====
-- Floored division: the remainder is the only number below the divisor that differs from the
-- dividend by a multiple of it.
use Prim.Native.Nat.{ℕ, ◌+◌, ◌-◌, ◌*◌, ◌/◌, ◌%◌, ◌<◌}
use mathlib.Core.Path.{◌≡◌, sym, ap, ◌∙◌}
use native.Mathlib.Nat.{add-mul-mod_self_right, mod-eq_of_lt, div-add-mod'}
use native.Mathlib.Omega.{arith}
use agent_memory_living_memo.Prelude.Int.{ℤ, pos, negsuc, pos_part, neg_part, mod_ℤ}

-- the same number on both sides, with the multiples of the divisor moved so that none is negative
pub record IsMod (a : ℤ) (m r : ℕ) : Type 0 where
  pub up : ℕ
  pub down : ℕ
  pub balance : pos_part a + up * m ≡ neg_part a + r + down * m
  pub below : r < m

mod_of_sum : (n k m r j : ℕ) → n + k * m ≡ r + j * m → r < m → n % m ≡ r
mod_of_sum n k m r j e h =
    sym (add-mul-mod_self_right n k m)
    ∙ ap (λ (t : ℕ). t % m) e
    ∙ add-mul-mod_self_right r j m
    ∙ mod-eq_of_lt h

-- what `mod_ℤ` gives is such a remainder
pub mod_ℤ-IsMod : (a : ℤ) (m : ℕ) → 0 < m → IsMod a m (mod_ℤ a m)
unfolding mod_ℤ
mod_ℤ-IsMod (pos n) m h = record {
  up = 0;
  down = n / m;
  balance = omega (arith, div-add-mod' n m);
  below = omega arith;
}
mod_ℤ-IsMod (negsuc n) m h = record {
  up = n / m + 1;
  down = 0;
  balance = omega (arith, div-add-mod' n m);
  below = omega arith;
}

-- and every such remainder is what `mod_ℤ` gives
pub mod_ℤ_of_IsMod : (a : ℤ) (m r : ℕ) → IsMod a m r → mod_ℤ a m ≡ r
unfolding mod_ℤ
mod_ℤ_of_IsMod (pos n) m r h = mod_of_sum n h.up m r h.down (omega (arith, h.balance)) h.below
mod_ℤ_of_IsMod (negsuc n) m r h =
    let e : n % m ≡ m - 1 - r =
      mod_of_sum n (h.down + 1) m (m - 1 - r) h.up (omega (arith, h.balance, h.below))
        (omega (arith, h.below)) in
    omega (arith, e, h.below)
