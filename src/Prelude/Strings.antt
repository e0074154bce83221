-- ===== src/Prelude/Strings.antt =====
-- The methods of `str` that the engine uses, on code points: strip, split, join and replace, and
-- the normal form of names, " ".join(value.strip().lower().split()).
pub mod Norm
pub mod Strip
pub mod Order
use Prim.Native.Nat.{ℕ}
use mathlib.Core.Bool.{Bool, true, false, ◌&&◌, ◌||◌}
use mathlib.Core.Option.{Option, none, some}
use mathlib.Core.List.{List, [], ◌∷◌, ◌++◌}
use agent_memory_living_memo.Prelude.Tests.{ltb, leb, nat_eq, if◌then◌else◌}
use agent_memory_living_memo.Prelude.Lists.{is_empty}
use agent_memory_living_memo.Prelude.Equality.{Text}

-- The characters that `strip` and `split` take for white space.
unfoldable pub is_space : ℕ → Bool
is_space c =
    (leb 9 c && leb c 13)
    || (leb 28 c && leb c 32)
    || nat_eq c 0x85
    || nat_eq c 0xa0
    || nat_eq c 0x1680
    || (leb 0x2000 c && leb c 0x200a)
    || (leb 0x2028 c && leb c 0x2029)
    || nat_eq c 0x202f
    || nat_eq c 0x205f
    || nat_eq c 0x3000

unfoldable pub lstrip : Text → Text
unfolding is_space
lstrip [] = []
lstrip (c ∷ s) = if is_space c then lstrip s else c ∷ s

unfoldable pub rstrip : Text → Text
unfolding is_space is_empty
rstrip [] = []
rstrip (c ∷ s) = let r = rstrip s in if is_empty r && is_space c then [] else c ∷ r

unfoldable pub strip : Text → Text
unfolding lstrip rstrip
strip s = lstrip (rstrip s)

-- A word that has ended goes into the result, if it is not empty.
abbrev pub push_word : Text → List Text → List Text
push_word [] ws = ws
push_word (c ∷ w) ws = (c ∷ w) ∷ ws

unfoldable pub split_from : Text → Text → List Text
unfolding is_space
split_from cur [] = push_word cur []
split_from cur (c ∷ s) = elim (is_space c) [
  | true ↦ push_word cur (split_from [] s)
  | false ↦ split_from (cur ++ c ∷ []) s
]

unfoldable pub split : Text → List Text
unfolding split_from
split s = split_from [] s

-- `sep.join(parts)`
unfoldable pub join : Text → List Text → Text
join sep [] = []
join sep (w ∷ []) = w
join sep (w ∷ v ∷ ws) = w ++ (sep ++ join sep (v ∷ ws))

-- `s.replace(a, b)` for single characters
unfoldable pub replace_char : ℕ → ℕ → Text → Text
replace_char a b [] = []
replace_char a b (c ∷ s) = (if nat_eq c a then b else c) ∷ replace_char a b s

-- `GraphStore._norm`, `FactLedger._norm` and `KnowledgeGraph._norm`, over the host's `str.lower`.
unfoldable pub norm : (Text → Text) → Text → Text
unfolding strip split join
norm lower value = join (32 ∷ []) (split (lower (strip value)))

-- `s <= t`
unfoldable pub text_before : Text → Text → Bool
text_before [] t = true
text_before (c ∷ s) [] = false
text_before (c ∷ s) (d ∷ t) = if ltb c d then true else nat_eq c d && text_before s t

-- `s.startswith(prefix)`, and what `s.removeprefix(prefix)` leaves
unfoldable pub after_prefix : Text → Text → Option Text
after_prefix [] s = some s
after_prefix (c ∷ p) [] = none
after_prefix (c ∷ p) (d ∷ s) = let rest = after_prefix p s in if nat_eq c d then rest else none
