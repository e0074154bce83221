-- ===== src/Mobius/Placement.antt =====
-- `address_for`: where the hash of a memory places it.
use agent_memory_living_memo.Prelude.{
  ℕ, zero, suc, ◌+◌, ◌≤◌, ◌<◌, ◌≡◌, refl, arith, List, [], ◌∷◌, some, length, drop, Text,
}
use agent_memory_living_memo.Schema.{MemoryEnvelope}
use agent_memory_living_memo.Mobius.{
  MobiusAddress, MobiusIndex, AddressMaterial, address_material, address_for, address_of,
  region_for, region_band, band_of,
}
use agent_memory_living_memo.Mobius.Strip.{IsIndex, InGrid}

band-le : (region : Text) → band_of region ≤ 12
unfolding band_of
band-le region = ground arith

region_band-lt :
    (m : MobiusIndex) (region : Text) (byte : ℕ)
    → 0 < m.v_size
    → region_band m region byte < m.v_size
unfolding region_band
region_band-lt m region byte h = ground arith

drop-cons :
    {A : Type 0} (n : ℕ) (xs : List A)
    → n < length xs
    → (x : A) × (r : List A) × (drop n xs ≡ x ∷ r)
unfolding drop
drop-cons n [] h = absurd (omega arith)
drop-cons zero (x ∷ xs) h = (x, xs, refl)
drop-cons (suc n) (x ∷ xs) h = drop-cons n xs (omega arith)

-- With a digest of 32 bytes every memory has an address; it lies in the grid and carries the
-- memory's region.
pub address_for_total :
    {N : Type 0} (digest : AddressMaterial N → List ℕ) (m : MobiusIndex) (memory : MemoryEnvelope N)
    → IsIndex m
    → length (digest (address_material digest memory)) ≡ 32
    → (a : MobiusAddress) × (address_for digest m memory ≡ some a)
      × InGrid m a
      × (a.region ≡ region_for memory)
unfolding address_for
address_for_total digest m memory h len =
    let (b, rest, e) = drop-cons 4 (digest (address_material digest memory)) (omega (arith, len)) in
    (
      address_of m (region_for memory) (digest (address_material digest memory)) b,
      rw (e, address_for) refl,
      record {
        u_lt = omega (arith, h.u_pos);
        v_lt = region_band-lt m (region_for memory) b h.v_pos;
        w_lt = omega (arith, h.w_pos);
      },
      refl,
    )

-- On the default strip, 16 wide, each region has a band of two positions of its own.
pub region_band_default :
    (m : MobiusIndex) (region : Text) (byte : ℕ)
    → m.v_size ≡ 16
    → (band_of region ≤ region_band m region byte)
      × (region_band m region byte < band_of region + 2)
unfolding region_band
region_band_default m region byte h = omega (arith, band-le region)
