-- ===== src/Prelude/Strings/Strip.antt =====
-- `strip` leaves nothing to strip.
use Prim.Native.Nat.{ℕ}
use mathlib.Core.Path.{◌≡◌, refl, ap, ◌∙◌}
use mathlib.Core.List.{[], ◌∷◌}
use mathlib.Core.Logic.{inl, inr}
use native.Mathlib.Omega.{arith}
use agent_memory_living_memo.Prelude.Tests.{Bool-cases}
use agent_memory_living_memo.Prelude.Equality.{Text}
use agent_memory_living_memo.Prelude.Strings.{is_space, lstrip, rstrip, strip}

lstrip-lstrip : (s : Text) → lstrip (lstrip s) ≡ lstrip s
unfolding lstrip
lstrip-lstrip [] = refl
lstrip-lstrip (c ∷ s) = elim (Bool-cases (is_space c)) [
  | inl h ↦ rw (h, lstrip) (lstrip-lstrip s)
  | inr h ↦ rw (h, lstrip) (rw (h, lstrip) refl)
]

rstrip-rstrip : (s : Text) → rstrip (rstrip s) ≡ rstrip s
unfolding rstrip
rstrip-rstrip [] = refl
rstrip-rstrip (c ∷ s) = ground (arith, rstrip-rstrip s)

-- what `rstrip` keeps whole it keeps whole without its first characters
rstrip-tail : (c : ℕ) (s : Text) → rstrip (c ∷ s) ≡ c ∷ s → rstrip s ≡ s
unfolding rstrip
rstrip-tail c s h = ground arith

rstrip-lstrip : (s : Text) → rstrip s ≡ s → rstrip (lstrip s) ≡ lstrip s
unfolding lstrip
rstrip-lstrip [] h = h
rstrip-lstrip (c ∷ s) h = elim (Bool-cases (is_space c)) [
  | inl e ↦ rw (e, lstrip) (rstrip-lstrip s (rstrip-tail c s h))
  | inr e ↦ rw (e, lstrip) h
]

pub strip-strip : (s : Text) → strip (strip s) ≡ strip s
unfolding strip
strip-strip s = ap lstrip (rstrip-lstrip (rstrip s) (rstrip-rstrip s)) ∙ lstrip-lstrip (rstrip s)
