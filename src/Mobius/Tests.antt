-- ===== src/Mobius/Tests.antt =====
-- Runs of the address arithmetic, and the theorems about it at concrete inputs.
use agent_memory_living_memo.Prelude.{
  ℕ, ◌≡◌, ◌↔◌, refl, arith, true, some, none, List, [], contains, Distinct, replicate, codes,
}
use agent_memory_living_memo.Prelude.Int.{pos, negsuc, ◌+ℤ◌}
use agent_memory_living_memo.Schema.Samples.{note}
use agent_memory_living_memo.Mobius.{
  MobiusAddress, MobiusAddress_eq, MobiusIndex, AddressMaterial, Step, within, move, wrap,
  neighbors, new_index, address_for, region_for,
}
use agent_memory_living_memo.Mobius.Strip
use agent_memory_living_memo.Mobius.Strip.{IsIndex, InGrid, flip}
use agent_memory_living_memo.Mobius.Neighbours.{neighbor_list, neighbors_exact, neighbor_complete}
use agent_memory_living_memo.Mobius.Symmetry.{neighbors_symm}
use agent_memory_living_memo.Mobius.Placement.{address_for_total}

abbrev index : MobiusIndex
index = record { u_size = 32; v_size = 16; w_size = 8 }

index-IsIndex : IsIndex index
index-IsIndex = omega arith

abbrev corner : MobiusAddress
corner = record { iu = 31; iv = 2; iw = 7; region = codes "semantic" }

corner-InGrid : InGrid index corner
corner-InGrid = omega arith

-- the constructor refuses an empty dimension
new_index_zero : new_index 32 0 8 ≡ none
unfolding new_index
new_index_zero = refl

-- a step over the seam turns v over
over_the_seam : move index corner (pos 1, pos 0, pos 0) ≡ record corner { iu = 0; iv = 13 }
unfolding move
over_the_seam = refl

-- a step past the edge of v comes back
past_the_edge :
    wrap index (pos 3) (negsuc 1) (negsuc 0) [] ≡ record { iu = 3; iv = 2; iw = 7; region = [] }
unfolding wrap
past_the_edge = refl

wrap_lap_example :
    (wrap index (pos 3 +ℤ pos 32) (pos 4) (pos 5) []
      ≡ wrap index (pos 3) (flip index (pos 4)) (pos 5) [])
    × (wrap index (pos 3 +ℤ pos 32 +ℤ pos 32) (pos 4) (pos 5) []
        ≡ wrap index (pos 3) (pos 4) (pos 5) [])
wrap_lap_example = Strip.wrap_lap index (pos 3) (pos 4) (pos 5) [] index-IsIndex

abbrev beside : MobiusAddress
beside = record corner { iu = 0; iv = 13 }

neighbors_exact_example :
    (neighbors index corner (negsuc 0) ≡ none)
    × (neighbors index corner (pos 1) ≡ some (neighbor_list index corner 1))
    × Distinct (neighbor_list index corner 1)
    × ((contains (neighbor_list index corner 1) beside ≡ true)
        ↔ ((d : Step) × (within 1 d ≡ true) × (move index corner d ≡ beside)))
neighbors_exact_example = neighbors_exact index corner 0 1 beside

beside-corner : contains (neighbor_list index corner 1) beside ≡ true
unfolding within
beside-corner = neighbor_complete index corner 1 beside (pos 1, pos 0, pos 0) refl over_the_seam

neighbors_symm_example :
    InGrid index beside × (contains (neighbor_list index beside 1) corner ≡ true)
neighbors_symm_example =
    neighbors_symm index corner beside 1 index-IsIndex corner-InGrid beside-corner

abbrev digest : AddressMaterial ℕ → List ℕ
digest material = replicate 32 7

address_for_total_example :
    (a : MobiusAddress) × (address_for digest index note ≡ some a)
    × InGrid index a
    × (a.region ≡ region_for note)
address_for_total_example = address_for_total digest index note index-IsIndex refl
