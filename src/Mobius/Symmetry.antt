-- ===== src/Mobius/Symmetry.antt =====
-- Neighbourhood goes both ways: each step along the strip has a step of the same length back.
use native.Mathlib.Nat.{mul-add-div_right, div-eq_of_lt}
use agent_memory_living_memo.Prelude.{
  ℕ, ◌+◌, ◌-◌, ◌*◌, ◌/◌, ◌%◌, ◌≤◌, ◌<◌, ◌≡◌, refl, ap, ◌∙◌, ◌⊎◌, inl, inr, arith, true, false, Bool,
  Bool-cases, contains, nat_eq, if◌then◌else◌, leb,
}
use agent_memory_living_memo.Prelude.Int.{
  ℤ, pos, negsuc, mod_ℤ, div_ℤ, ◌+ℤ◌, neg, abs, abs-neg, int_laws,
}
use agent_memory_living_memo.Prelude.Int.Mod.{IsMod, mod_ℤ-IsMod, mod_ℤ_of_IsMod}
use agent_memory_living_memo.Mobius.{
  MobiusAddress, MobiusAddress_eq, MobiusIndex, Step, within, move, wrap, reflect_axis,
}
use agent_memory_living_memo.Mobius.Axis.{
  IsCongr, IsAnti, reflect_axis_of_lt, reflect_axis-congr, reflect_axis-anti, reflect_axis-cases,
}
use agent_memory_living_memo.Mobius.Strip.{IsIndex, InGrid, wrap-InGrid, flip, is_flat}
use agent_memory_living_memo.Mobius.Neighbours.{neighbor_list, neighbor_sound, neighbor_complete}

quotient_eq : (n up m r down : ℕ) → 0 < m → r < m → n + up * m ≡ r + down * m → n / m + up ≡ down
quotient_eq n up m r down h lt e = omega (
  arith,
  mul-add-div_right h up n,
  mul-add-div_right h down r,
  div-eq_of_lt lt,
  ap (λ (t : ℕ). t / m) {x = up * m + n} {y = down * m + r} (omega arith),
)

-- the parity of the quotient, from any way to write the remainder
parity : (x : ℤ) (m r : ℕ) (c : IsMod x m r) → mod_ℤ (div_ℤ x m) 2 ≡ (c.up + c.down) % 2
unfolding mod_ℤ div_ℤ
parity (pos n) m r c =
    let q : n / m + c.up ≡ c.down =
      quotient_eq n c.up m r c.down (omega (arith, c.below)) c.below (omega (arith, c.balance)) in
    omega (arith, q)
parity (negsuc n) m r c =
    let q : n / m + (c.down + 1) ≡ c.up =
      quotient_eq n (c.down + 1) m (m - 1 - r) c.up (omega (arith, c.below))
        (omega (arith, c.below)) (omega (arith, c.balance, c.below)) in
    omega (arith, q)

-- a step back on a circle
back_IsMod :
    (m n : ℕ) (d : ℤ)
    → 0 < m
    → n < m
    → (c : IsMod (pos n +ℤ d) m (mod_ℤ (pos n +ℤ d) m))
    → IsMod (pos (mod_ℤ (pos n +ℤ d) m) +ℤ neg d) m n
back_IsMod m n d h lt c = record {
  up = c.down;
  down = c.up;
  balance = omega (int_laws, c.balance);
  below = lt;
}

back_circle : (m n : ℕ) (d : ℤ) → 0 < m → n < m → mod_ℤ (pos (mod_ℤ (pos n +ℤ d) m) +ℤ neg d) m ≡ n
back_circle m n d h lt = mod_ℤ_of_IsMod _ m n (back_IsMod m n d h lt (mod_ℤ-IsMod (pos n +ℤ d) m h))

back_flat :
    (m : MobiusIndex) (n : ℕ) (d : ℤ)
    → 0 < m.u_size
    → n < m.u_size
    → is_flat m (pos (mod_ℤ (pos n +ℤ d) m.u_size) +ℤ neg d) ≡ is_flat m (pos n +ℤ d)
unfolding back_IsMod
back_flat m n d h lt =
    let c = mod_ℤ-IsMod (pos n +ℤ d) m.u_size h in
    let p = parity _ m.u_size _ c in
    let q = parity _ m.u_size n (back_IsMod m.u_size n d h lt c) in
    ap (λ (t : ℕ). nat_eq t 0) (omega (arith, p, q))

-- the coordinate that a step along v leads to, on a strip that is flat or turned over
abbrev v_of : MobiusIndex → Bool → ℤ → ℕ
v_of m flat v = reflect_axis (if flat then v else flip m v) m.v_size

-- a step back along v has the same length
abbrev BackStep : MobiusIndex → Bool → ℕ → ℤ → Type 0
BackStep m flat n d =
    (e : ℤ) × (abs e ≡ abs d) × (v_of m flat (pos (v_of m flat (pos n +ℤ d)) +ℤ e) ≡ n)

back_of_congr :
    (m : MobiusIndex) (n : ℕ) (x : ℤ)
    → n < m.v_size
    → IsCongr (2 * (m.v_size - 1)) x (pos n) ⊎ IsAnti (2 * (m.v_size - 1)) x (pos n)
    → reflect_axis x m.v_size ≡ n
back_of_congr m n x h (inl c) =
    reflect_axis-congr m.v_size x (pos n) c ∙ reflect_axis_of_lt n m.v_size h
back_of_congr m n x h (inr c) =
    reflect_axis-anti m.v_size x (pos n) c ∙ reflect_axis_of_lt n m.v_size h

back_v_wide :
    (m : MobiusIndex) (flat : Bool) (n : ℕ) (d : ℤ)
    → 1 < m.v_size
    → n < m.v_size
    → BackStep m flat n d
back_v_wide m true n d h lt = elim (reflect_axis-cases (pos n +ℤ d) m.v_size h) [
  | inl c ↦ (
    neg d,
    abs-neg d,
    back_of_congr m n _ lt
        (inl (record { up = c.up; down = c.down; balance = omega (int_laws, c.balance) })),
  )
  | inr c ↦ (
    d,
    refl,
    back_of_congr m n _ lt
        (inr (record { up = c.up; down = c.down; balance = omega (int_laws, c.balance) })),
  )
]
back_v_wide m false n d h lt = elim (reflect_axis-cases (flip m (pos n +ℤ d)) m.v_size h) [
  | inl c ↦ (
    d,
    refl,
    back_of_congr m n _ lt
        (inl (record { up = c.down; down = c.up; balance = omega (int_laws, c.balance) })),
  )
  | inr c ↦ (
    neg d,
    abs-neg d,
    back_of_congr m n _ lt
        (inr (record { up = c.down + 1; down = c.up + 2; balance = omega (int_laws, c.balance) })),
  )
]

back_v_narrow :
    (m : MobiusIndex) (flat : Bool) (n : ℕ) (d : ℤ)
    → m.v_size ≤ 1
    → n < m.v_size
    → BackStep m flat n d
unfolding reflect_axis
back_v_narrow m flat n d h lt = (d, refl, ground arith)

back_v : (m : MobiusIndex) (flat : Bool) (n : ℕ) (d : ℤ) → n < m.v_size → BackStep m flat n d
back_v m flat n d lt = elim (Bool-cases (leb m.v_size 1)) [
  | inl e ↦ back_v_narrow m flat n d (ground arith) lt
  | inr e ↦ back_v_wide m flat n d (ground arith) lt
]

-- every step has a step back of the same length
back :
    (m : MobiusIndex) (a : MobiusAddress) (depth : ℕ) (d : Step)
    → IsIndex m
    → InGrid m a
    → within depth d ≡ true
    → (e : Step) × (within depth e ≡ true) × (move m (move m a d) e ≡ a)
unfolding within move wrap
back m a depth (du, dv, dw) h g w =
    let flat = is_flat m (pos a.iu +ℤ du) in
    let (ev, same, lands) = back_v m flat a.iv dv g.v_lt in
    let turn = back_flat m a.iu du h.u_pos g.u_lt in
    (
      (neg du, ev, neg dw),
      ground (arith, abs-neg du, abs-neg dw),
      λ i. record {
        iu = back_circle m.u_size a.iu du h.u_pos g.u_lt i;
        iv =
            (ap (λ (b : Bool). v_of m b (pos (v_of m flat (pos a.iv +ℤ dv)) +ℤ ev)) turn ∙ lands) i;
        iw = back_circle m.w_size a.iw dw h.w_pos g.w_lt i;
        region = a.region;
      },
    )

-- If `b` is a neighbour of an address of the grid, then `b` is in the grid and the address is a
-- neighbour of `b`, at the same depth.
pub neighbors_symm :
    (m : MobiusIndex) (a b : MobiusAddress) (depth : ℕ)
    → IsIndex m
    → InGrid m a
    → contains (neighbor_list m a depth) b ≡ true
    → InGrid m b × (contains (neighbor_list m b depth) a ≡ true)
neighbors_symm m a b depth h g c =
    let (d, w, e) = neighbor_sound m a depth b c in
    let (e', w', r) = back m a depth d h g w in
    (
      rw (← e) (unfold move in (wrap-InGrid m _ _ _ a.region h).0),
      neighbor_complete m b depth a e' w' (rw e at r),
    )
