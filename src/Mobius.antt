-- ===== src/Mobius.antt =====
-- mobius.py: addresses on a strip whose u axis closes with a twist, whose v axis reflects at its
-- edges and whose w axis is a circle. The hash of a memory places it; neighbours are the addresses
-- a bounded number of steps away.
pub mod Axis
pub mod Strip
pub mod Neighbours
pub mod Symmetry
pub mod Placement
mod Tests
use agent_memory_living_memo.Prelude.{
  ℕ, zero, suc, ◌+◌, ◌-◌, ◌*◌, ◌/◌, ◌%◌, Bool, true, false, not, ◌&&◌, ◌||◌, Option, none, some,
  List, [], ◌∷◌, ◌++◌, map, Text, Text_eq, codes, ◌==◌, contains, dedup, if◌then◌else◌, ltb, leb,
  nat_eq, min, max, length, all_of, filter_by, take, drop, ◌≡◌, ◌↔◌, text_eq_iff, Eq, arith,
}
use agent_memory_living_memo.Prelude.Int.{
  ℤ, pos, negsuc, pos_part, neg_part, sub_ℕ, ◌+ℤ◌, ◌-ℤ◌, mod_ℤ, div_ℤ, abs,
}
use agent_memory_living_memo.Prelude.Sort.{sort_by}
use agent_memory_living_memo.Prelude.Strings.{text_before}
use agent_memory_living_memo.Schema.{Dict, MemoryEnvelope}

pub record MobiusAddress : Type 0 where
  pub iu : ℕ
  pub iv : ℕ
  pub iw : ℕ
  pub region : Text

pub record MobiusIndex : Type 0 where
  pub u_size : ℕ
  pub v_size : ℕ
  pub w_size : ℕ

-- `none` is the ValueError of a dimension that is not positive.
unfoldable pub new_index : ℕ → ℕ → ℕ → Option MobiusIndex
new_index u_size v_size w_size =
    if leb (min (min u_size v_size) w_size) 0
    then none
    else some (record { u_size = u_size; v_size = v_size; w_size = w_size })

unfoldable pub reflect_axis : ℤ → ℕ → ℕ
unfolding mod_ℤ
reflect_axis value size =
    if leb size 1
    then 0
    else let period = 2 * (size - 1) in
      let position = mod_ℤ value period in if leb size position then period - position else position

unfoldable pub wrap : MobiusIndex → ℤ → ℤ → ℤ → Text → MobiusAddress
unfolding reflect_axis div_ℤ mod_ℤ ◌-ℤ◌
wrap m iu iv iw region =
    let wraps = div_ℤ iu m.u_size in
    let new_v : ℤ = if nat_eq (mod_ℤ wraps 2) 0 then iv else pos m.v_size -ℤ pos 1 -ℤ iv in
    record {
      iu = mod_ℤ iu m.u_size;
      iv = reflect_axis new_v m.v_size;
      iw = mod_ℤ iw m.w_size;
      region = region;
    }

-- `range(-depth, depth + 1)`
unfoldable pub steps_from : ℕ → ℕ → List ℤ
steps_from depth zero = []
steps_from depth (suc n) = sub_ℕ (2 * depth - n) depth ∷ steps_from depth n

abbrev pub steps : ℕ → List ℤ
steps depth = steps_from depth (2 * depth + 1)

-- A step (du, dv, dw) of the three loops that the `continue` does not skip.
abbrev pub Step : Type 0
Step = ℤ × ℤ × ℤ

unfoldable pub within : ℕ → Step → Bool
within depth (du, dv, dw) = leb (abs du + abs dv + abs dw) depth

-- The nested loops, the innermost last.
unfoldable pub loop_w : ℤ → ℤ → List ℤ → List Step
loop_w du dv [] = []
loop_w du dv (dw ∷ ws) = (du, dv, dw) ∷ loop_w du dv ws

unfoldable pub loop_v : ℤ → List ℤ → List ℤ → List Step
unfolding loop_w
loop_v du [] ws = []
loop_v du (dv ∷ vs) ws = loop_w du dv ws ++ loop_v du vs ws

unfoldable pub loop_u : List ℤ → List ℤ → List ℤ → List Step
unfolding loop_v
loop_u [] vs ws = []
loop_u (du ∷ us) vs ws = loop_v du vs ws ++ loop_u us vs ws

unfoldable pub move : MobiusIndex → MobiusAddress → Step → MobiusAddress
unfolding wrap ◌+ℤ◌
move m a (du, dv, dw) = wrap m (pos a.iu +ℤ du) (pos a.iv +ℤ dv) (pos a.iw +ℤ dw) a.region

-- Addresses are ordered by their fields, from the first to the last.
unfoldable pub address_before : MobiusAddress → MobiusAddress → Bool
unfolding text_before
address_before a b =
    ltb a.iu b.iu
    || nat_eq a.iu b.iu
      && (ltb a.iv b.iv
          || nat_eq a.iv b.iv
            && (ltb a.iw b.iw || nat_eq a.iw b.iw && text_before a.region b.region))

unfoldable pub address_eq : MobiusAddress → MobiusAddress → Bool
address_eq a b = nat_eq a.iu b.iu && nat_eq a.iv b.iv && nat_eq a.iw b.iw && (a.region == b.region)

pub address_eq_iff : (a b : MobiusAddress) → (address_eq a b ≡ true) ↔ (a ≡ b)
unfolding address_eq
address_eq_iff a b = ground (arith, text_eq_iff a.region b.region)

instance abbrev pub MobiusAddress_eq : Eq MobiusAddress
MobiusAddress_eq = record { same = address_eq; same_iff = address_eq_iff }

-- `none` is the ValueError of a negative depth.
unfoldable pub neighbors : MobiusIndex → MobiusAddress → ℤ → Option (List MobiusAddress)
unfolding move within loop_u steps_from dedup sort_by address_before filter_by
neighbors m a (negsuc n) = none
neighbors m a (pos depth) = some (
    sort_by address_before (
      dedup (
        map (move m a)
          (filter_by (within depth) (loop_u (steps depth) (steps depth) (steps depth))))))

-- The part of a memory that decides its address.
pub record AddressMaterial (N : Type 0) : Type 0 where
  pub scope : Dict N
  pub memory_type : Text
  pub modalities : List Text
  pub tags : List Text
  pub entities : List Text
  pub content_hash : Text

abbrev pub own_regions : List Text
own_regions =
    codes "decision" ∷ codes "error" ∷ codes "solution" ∷ codes "procedural" ∷ codes "semantic" ∷ []

unfoldable pub region_for : {N : Type 0} → MemoryEnvelope N → Text
unfolding contains dedup all_of
region_for memory =
    let names = map (λ item. item.modality) memory.modalities in
    if contains own_regions memory.memory_type
    then memory.memory_type
    else if ltb 1 (length (dedup names))
        || not (all_of (contains (codes "text" ∷ codes "structured" ∷ [])) names)
    then codes "multimodal"
    else codes "episodic"

-- `bands.get(region, 0)`
unfoldable pub band_of : Text → ℕ
band_of region =
    if region == codes "semantic"
    then 2
    else if region == codes "procedural"
    then 4
    else if region == codes "decision"
    then 6
    else if region == codes "error"
    then 8
    else if region == codes "solution"
    then 10
    else if region == codes "multimodal"
    then 12
    else 0

unfoldable pub region_band : MobiusIndex → Text → ℕ → ℕ
unfolding band_of
region_band m region byte =
    let start = min (band_of region) (m.v_size - 1) in
    let width = max 1 (m.v_size / 8) in min (m.v_size - 1) (start + byte % width)

-- `int.from_bytes(bytes, "big")`, after the bytes read so far
unfoldable pub from_bytes : ℕ → List ℕ → ℕ
from_bytes acc [] = acc
from_bytes acc (b ∷ bs) = from_bytes (acc * 256 + b) bs

-- The address that the bytes of a digest, the fifth of them `b`, give in a region.
abbrev pub address_of : MobiusIndex → Text → List ℕ → ℕ → MobiusAddress
address_of m region bytes b = record {
  iu = from_bytes 0 (take 4 bytes) % m.u_size;
  iv = region_band m region b;
  iw = from_bytes 0 (take 4 (drop 5 bytes)) % m.w_size;
  region = region;
}

-- `digest` stands for SHA-256 of the JSON text of the material. `none` is the IndexError of a
-- digest shorter than five bytes.
module _ {N : Type 0} (digest : AddressMaterial N → List ℕ) where
  abbrev pub address_material : MemoryEnvelope N → AddressMaterial N
  address_material memory = record {
    scope = memory.scope;
    memory_type = memory.memory_type;
    modalities = map (λ item. item.modality) memory.modalities;
    tags = memory.tags;
    entities = memory.entities;
    content_hash = memory.content_hash;
  }

  unfoldable pub address_for : MobiusIndex → MemoryEnvelope N → Option MobiusAddress
  unfolding region_for region_band from_bytes take drop
  address_for m memory =
      let bytes = digest (address_material memory) in
      let region = region_for memory in
      elim (drop 4 bytes) [ [] ↦ none | b ∷ _ ↦ some (address_of m region bytes b) ]
