-- ===== src/Mobius/Neighbours.antt =====
-- `neighbors`: the loops visit every step of the given length and no other, and the result is
-- sorted, without repetition, and inside the grid.
use native.Mathlib.Decide.{dec_lt}
use agent_memory_living_memo.Prelude.{
  ℕ, zero, suc, ◌+◌, ◌-◌, ◌*◌, ◌≤◌, ◌<◌, ◌≡◌, ◌↔◌, refl, sym, ◌∙◌, arith, true, inl, inr, some,
  none, List, [], ◌∷◌, map, filter_by, contains, Distinct, dedup, dedup-Distinct, contains-dedup,
}
use agent_memory_living_memo.Prelude.Int.{ℤ, pos, negsuc, sub_ℕ, abs}
use agent_memory_living_memo.Prelude.Sort.{sort_by}
use agent_memory_living_memo.Prelude.Among.{
  Among, Among-left, Among-right, Among-filter_by, Among-of_filter_by, Among-map, Among-of_map,
  Among-of_contains, contains_of_Among, contains-sort_by, sort_by-Distinct,
}
use agent_memory_living_memo.Mobius.{
  MobiusAddress, MobiusAddress_eq, MobiusIndex, Step, steps_from, steps, within, loop_w, loop_v,
  loop_u, move, neighbors, address_before,
}

steps_complete : (depth k n : ℕ) → k < n → Among (sub_ℕ (2 * depth - k) depth) (steps_from depth n)
unfolding steps_from
steps_complete depth k zero h = absurd (omega arith)
steps_complete depth k (suc n) h = elim (dec_lt k n) [
  | yes lt ↦ inr (steps_complete depth k n lt)
  | no ge ↦ let e : n ≡ k = omega arith in inl (rw e)
]

abs-sub :
    (z : ℤ) (depth : ℕ)
    → abs z ≤ depth
    → (k : ℕ) × (k < 2 * depth + 1) × (sub_ℕ (2 * depth - k) depth ≡ z)
abs-sub (pos n) depth h = (depth - n, omega arith, ground arith)
abs-sub (negsuc n) depth h = (depth + suc n, omega arith, ground arith)

Among-steps : (z : ℤ) (depth : ℕ) → abs z ≤ depth → Among z (steps depth)
Among-steps z depth h =
    let (k, lt, e) = abs-sub z depth h in rw e at (steps_complete depth k (2 * depth + 1) lt)

Among-loop_w : (du dv dw : ℤ) (ws : List ℤ) → Among dw ws → Among (du, dv, dw) (loop_w du dv ws)
unfolding loop_w
Among-loop_w du dv dw [] m = absurd m
Among-loop_w du dv dw (x ∷ ws) (inl e) = inl (λ i. (du, dv, e i))
Among-loop_w du dv dw (x ∷ ws) (inr m) = inr (Among-loop_w du dv dw ws m)

Among-loop_v :
    (du dv dw : ℤ) (vs ws : List ℤ)
    → Among dv vs
    → Among dw ws
    → Among (du, dv, dw) (loop_v du vs ws)
unfolding loop_v
Among-loop_v du dv dw [] ws m k = absurd m
Among-loop_v du dv dw (x ∷ vs) ws (inl e) k =
    Among-left (du, dv, dw) (loop_w du x ws) (loop_v du vs ws) (rw e (Among-loop_w du dv dw ws k))
Among-loop_v du dv dw (x ∷ vs) ws (inr m) k =
    Among-right (du, dv, dw) (loop_w du x ws) (loop_v du vs ws) (Among-loop_v du dv dw vs ws m k)

Among-loop_u :
    (du dv dw : ℤ) (us vs ws : List ℤ)
    → Among du us
    → Among dv vs
    → Among dw ws
    → Among (du, dv, dw) (loop_u us vs ws)
unfolding loop_u
Among-loop_u du dv dw [] vs ws m k l = absurd m
Among-loop_u du dv dw (x ∷ us) vs ws (inl e) k l =
    Among-left (du, dv, dw) (loop_v x vs ws) (loop_u us vs ws)
      (rw e (Among-loop_v du dv dw vs ws k l))
Among-loop_u du dv dw (x ∷ us) vs ws (inr m) k l =
    Among-right (du, dv, dw) (loop_v x vs ws) (loop_u us vs ws)
      (Among-loop_u du dv dw us vs ws m k l)

-- the steps that the loops take
abbrev steps_within : ℕ → List Step
steps_within depth = filter_by (within depth) (loop_u (steps depth) (steps depth) (steps depth))

Among-steps_within : (depth : ℕ) (d : Step) → within depth d ≡ true → Among d (steps_within depth)
Among-steps_within depth (du, dv, dw) h =
    Among-filter_by (du, dv, dw) (within depth) (loop_u (steps depth) (steps depth) (steps depth)) h
      (unfold within in
        Among-loop_u du dv dw (steps depth) (steps depth) (steps depth)
          (Among-steps du depth (ground arith)) (Among-steps dv depth (ground arith))
          (Among-steps dw depth (ground arith)))

-- what a call with a depth that is not negative returns
abbrev pub neighbor_list : MobiusIndex → MobiusAddress → ℕ → List MobiusAddress
neighbor_list m a depth = sort_by address_before (dedup (map (move m a) (steps_within depth)))

distinct : (m : MobiusIndex) (a : MobiusAddress) (depth : ℕ) → Distinct (neighbor_list m a depth)
distinct m a depth =
    sort_by-Distinct address_before _ (dedup-Distinct (map (move m a) (steps_within depth)))

module _ (m : MobiusIndex) (a : MobiusAddress) (depth : ℕ) (b : MobiusAddress) where
  member : contains (neighbor_list m a depth) b ≡ contains (map (move m a) (steps_within depth)) b
  member =
      contains-sort_by address_before b _ ∙ contains-dedup b (map (move m a) (steps_within depth))

  pub neighbor_sound :
      contains (neighbor_list m a depth) b ≡ true
      → (d : Step) × (within depth d ≡ true) × (move m a d ≡ b)
  neighbor_sound h =
      let (d, among, e) =
        Among-of_map (move m a) b (steps_within depth)
          (Among-of_contains b (map (move m a) (steps_within depth)) (sym member ∙ h)) in
      (
        d,
        (Among-of_filter_by d (within depth) (loop_u (steps depth) (steps depth) (steps depth))
            among).1,
        e,
      )

  pub neighbor_complete :
      (d : Step)
      → within depth d ≡ true
      → move m a d ≡ b
      → contains (neighbor_list m a depth) b ≡ true
  neighbor_complete d h e =
      member
      ∙ contains_of_Among b (map (move m a) (steps_within depth))
          (rw e at (Among-map (move m a) d (steps_within depth) (Among-steps_within depth d h)))

-- A depth below zero is refused; any other gives a list in which an address stands at most once,
-- and stands exactly when some step of at most that length leads to it.
pub neighbors_exact :
    (m : MobiusIndex) (a : MobiusAddress) (n depth : ℕ) (b : MobiusAddress)
    → (neighbors m a (negsuc n) ≡ none)
      × (neighbors m a (pos depth) ≡ some (neighbor_list m a depth))
      × Distinct (neighbor_list m a depth)
      × ((contains (neighbor_list m a depth) b ≡ true)
          ↔ ((d : Step) × (within depth d ≡ true) × (move m a d ≡ b)))
unfolding neighbors
neighbors_exact m a n depth b = (
  refl,
  refl,
  distinct m a depth,
  (neighbor_sound m a depth b, λ s. neighbor_complete m a depth b s.0 s.1 s.2),
)
