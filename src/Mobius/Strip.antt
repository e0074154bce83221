-- ===== src/Mobius/Strip.antt =====
-- `_wrap`: every triple of integers is an address of the grid, an address is its own, and one lap
-- along u turns the strip over.
use native.Mathlib.Nat.{mod-eq_of_lt, div-eq_of_lt, add-div_right}
use agent_memory_living_memo.Prelude.{
  ℕ, suc, ◌+◌, ◌-◌, ◌/◌, ◌≤◌, ◌<◌, ◌≡◌, refl, ap, ◌∙◌, arith, nat_eq, true, false, not, Text,
  if◌then◌else◌, Bool,
}
use agent_memory_living_memo.Prelude.Int.{ℤ, pos, negsuc, mod_ℤ, mod_ℤ-lt, div_ℤ, ◌-ℤ◌, ◌+ℤ◌}
use agent_memory_living_memo.Mobius.{MobiusAddress, MobiusIndex, reflect_axis, wrap}
use agent_memory_living_memo.Mobius.Axis.{reflect_axis-lt, reflect_axis_of_lt, mod_ℤ-congr, IsCongr}

-- The dimensions that the constructor accepts.
pub record IsIndex (m : MobiusIndex) : Type 0 where
  pub u_pos : 0 < m.u_size
  pub v_pos : 0 < m.v_size
  pub w_pos : 0 < m.w_size

pub record InGrid (m : MobiusIndex) (a : MobiusAddress) : Type 0 where
  pub u_lt : a.iu < m.u_size
  pub v_lt : a.iv < m.v_size
  pub w_lt : a.iw < m.w_size

-- The turned-over v coordinate.
abbrev pub flip : MobiusIndex → ℤ → ℤ
flip m iv = pos m.v_size -ℤ pos 1 -ℤ iv

-- Whether the laps that `iu` has made leave the strip turned over.
abbrev pub is_flat : MobiusIndex → ℤ → Bool
is_flat m iu = nat_eq (mod_ℤ (div_ℤ iu m.u_size) 2) 0

-- Whatever the integers, the address lies in the grid, in the region that was asked for.
pub wrap-InGrid :
    (m : MobiusIndex) (iu iv iw : ℤ) (region : Text)
    → IsIndex m
    → InGrid m (wrap m iu iv iw region) × ((wrap m iu iv iw region).region ≡ region)
unfolding wrap
wrap-InGrid m iu iv iw region h = (
  record {
    u_lt = mod_ℤ-lt iu m.u_size h.u_pos;
    v_lt = reflect_axis-lt _ m.v_size h.v_pos;
    w_lt = mod_ℤ-lt iw m.w_size h.w_pos;
  },
  refl,
)

-- An address of the grid is its own.
pub wrap_of_InGrid :
    (m : MobiusIndex) (a : MobiusAddress)
    → InGrid m a
    → wrap m (pos a.iu) (pos a.iv) (pos a.iw) a.region ≡ a
unfolding wrap
wrap_of_InGrid m a h = ground (
  arith,
  mod-eq_of_lt {n = a.iu} {m = m.u_size},
  div-eq_of_lt {n = a.iu} {m = m.u_size},
  mod-eq_of_lt {n = a.iw} {m = m.w_size},
  reflect_axis_of_lt a.iv m.v_size,
)

add-IsCongr : (a : ℤ) (m : ℕ) → IsCongr m (a +ℤ pos m) a
unfolding ◌+ℤ◌
add-IsCongr a m = record { up = 0; down = 1; balance = ground arith }

div_down : (n m : ℕ) → 0 < m → m ≤ n → n / m ≡ (n - m) / m + 1
div_down n m h le = ap (λ (t : ℕ). t / m) (omega arith) ∙ add-div_right (n - m) h

-- one more lap turns the strip over once more
lap_turns :
    (m : MobiusIndex) (iu : ℤ) → 0 < m.u_size → is_flat m (iu +ℤ pos m.u_size) ≡ not (is_flat m iu)
unfolding ◌+ℤ◌ div_ℤ mod_ℤ
lap_turns m (pos n) h = ground (arith, add-div_right n h)
lap_turns m (negsuc n) h = ground (
  arith,
  div_down n m.u_size h,
  div-eq_of_lt {n = n} {m = m.u_size},
  div-eq_of_lt {n = m.u_size - suc n} {m = m.u_size},
)

flip-flip : (m : MobiusIndex) (iv : ℤ) → flip m (flip m iv) ≡ iv
unfolding ◌-ℤ◌
flip-flip m iv = ground arith

turned-eq :
    (m : MobiusIndex) (u v : ℤ)
    → 0 < m.u_size
    → (if is_flat m (u +ℤ pos m.u_size) then v else flip m v)
      ≡ (if is_flat m u then flip m v else flip m (flip m v))
turned-eq m u v h =
    rw (lap_turns m u h, flip-flip m v)
      (elim (is_flat m u) as (λ b. (if not b then v else flip m v) ≡ (if b then flip m v else v)) [
        | true ↦ refl
        | false ↦ refl
      ])

wrap_lap_once :
    (m : MobiusIndex) (u v iw : ℤ) (region : Text)
    → IsIndex m
    → wrap m (u +ℤ pos m.u_size) v iw region ≡ wrap m u (flip m v) iw region
unfolding wrap
wrap_lap_once m u v iw region h = λ i. record {
  iu = mod_ℤ-congr m.u_size (u +ℤ pos m.u_size) u h.u_pos (add-IsCongr u m.u_size) i;
  iv = reflect_axis (turned-eq m u v h.u_pos i) m.v_size;
  iw = mod_ℤ iw m.w_size;
  region = region;
}

-- One lap along u is the same as turning v over, and two laps lead back.
pub wrap_lap :
    (m : MobiusIndex) (iu iv iw : ℤ) (region : Text)
    → IsIndex m
    → (wrap m (iu +ℤ pos m.u_size) iv iw region ≡ wrap m iu (flip m iv) iw region)
      × (wrap m (iu +ℤ pos m.u_size +ℤ pos m.u_size) iv iw region ≡ wrap m iu iv iw region)
wrap_lap m iu iv iw region h = (
  wrap_lap_once m iu iv iw region h,
  wrap_lap_once m (iu +ℤ pos m.u_size) iv iw region h
      ∙ wrap_lap_once m iu (flip m iv) iw region h
      ∙ ap (λ (v : ℤ). wrap m iu v iw region) (flip-flip m iv),
)
