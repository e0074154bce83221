-- ===== src/Prelude/Strings/Norm.antt =====
-- The normal form of names is a fixed point of normalisation: names that are compared, stored and
-- hashed in normal form stay as they are when they are normalised again.
use Prim.Native.Nat.{ℕ}
use mathlib.Core.Path.{◌≡◌, refl, ap, sym, ◌∙◌}
use mathlib.Core.Bool.{false, ◌&&◌}
use mathlib.Core.Logic.{inl, inr}
use mathlib.Core.List.{List, [], ◌∷◌, ◌++◌, append_assoc, append-nil}
use native.Mathlib.Omega.{arith}
use agent_memory_living_memo.Prelude.Tests.{Bool-cases}
use agent_memory_living_memo.Prelude.Lists.{All, All-append, is_empty}
use agent_memory_living_memo.Prelude.Equality.{Text}
use agent_memory_living_memo.Prelude.Strings.{
  is_space, lstrip, rstrip, strip, push_word, split_from, split, join, norm,
}

-- Characters that are no white space.
abbrev IsSolid : Text → Type 0
IsSolid w = All (λ c. is_space c ≡ false) w

abbrev IsWord : Text → Type 0
IsWord w = (is_empty w ≡ false) × IsSolid w

split_from-lstrip : (s : Text) → split_from [] (lstrip s) ≡ split_from [] s
unfolding lstrip split_from
split_from-lstrip [] = refl
split_from-lstrip (c ∷ s) = ground (arith, split_from-lstrip s)

split_from-rstrip : (cur s : Text) → split_from cur (rstrip s) ≡ split_from cur s
unfolding rstrip split_from
split_from-rstrip cur [] = refl
split_from-rstrip cur (c ∷ s) =
    ground (arith, split_from-rstrip [] s, split_from-rstrip (cur ++ c ∷ []) s)

-- white space at the ends does not change the words
pub split-strip : (s : Text) → split (strip s) ≡ split s
unfolding split strip
split-strip s = split_from-lstrip (rstrip s) ∙ split_from-rstrip [] s

-- a run of solid characters goes into the word that is being read
split_from-solid : (cur w s : Text) → IsSolid w → split_from cur (w ++ s) ≡ split_from (cur ++ w) s
unfolding split_from
split_from-solid cur [] s h = rw append-nil
split_from-solid cur (c ∷ w) s h =
    rw (h.0, split_from) (split_from-solid (cur ++ c ∷ []) w s h.1 ∙ rw append_assoc)

push-split : (w : Text) (ws : List Text) → is_empty w ≡ false → push_word w ws ≡ w ∷ ws
unfolding is_empty
push-split [] ws h = cc
push-split (c ∷ w) ws h = refl

split_from-join : (ws : List Text) → All IsWord ws → split_from [] (join (32 ∷ []) ws) ≡ ws
unfolding split_from join
split_from-join [] h = refl
split_from-join (w ∷ []) h =
    ap (split_from []) (sym (append-nil w)) ∙ split_from-solid [] w [] h.0.1 ∙ push-split w [] h.0.0
split_from-join (w ∷ v ∷ ws) h =
    split_from-solid [] w (32 ∷ join (32 ∷ []) (v ∷ ws)) h.0.1
    ∙ push-split w (split_from [] (join (32 ∷ []) (v ∷ ws))) h.0.0
    ∙ ap (◌∷◌ w) (split_from-join (v ∷ ws) h.1)

split_from-IsWord : (cur s : Text) → IsSolid cur → All IsWord (split_from cur s)
unfolding split_from is_empty
split_from-IsWord [] [] h = tt
split_from-IsWord (d ∷ cur) [] h = ((refl, h), tt)
split_from-IsWord [] (c ∷ s) h = elim (Bool-cases (is_space c)) [
  | inl e ↦ rw (e, split_from) (split_from-IsWord [] s tt)
  | inr e ↦ rw (e, split_from) (split_from-IsWord (c ∷ []) s (e, tt))
]
split_from-IsWord (d ∷ cur) (c ∷ s) h = elim (Bool-cases (is_space c)) [
  | inl e ↦ rw (e, split_from) ((refl, h), split_from-IsWord [] s tt)
  | inr e ↦
      rw (e, split_from)
        (split_from-IsWord ((d ∷ cur) ++ c ∷ []) s
          (All-append (λ x. is_space x ≡ false) (d ∷ cur) (c ∷ []) h (e, tt)))
]

-- joining words and splitting them again gives the words
pub split-join : (s : Text) → split (join (32 ∷ []) (split s)) ≡ split s
unfolding split
split-join s = split_from-join (split_from [] s) (split_from-IsWord [] s tt)

module _ (P : ℕ → Type 0) where
  lstrip-All : (s : Text) → All P s → All P (lstrip s)
  unfolding lstrip
  lstrip-All [] h = tt
  lstrip-All (c ∷ s) h = elim (Bool-cases (is_space c)) [
    | inl e ↦ rw (e, lstrip) (lstrip-All s h.1)
    | inr e ↦ rw (e, lstrip) h
  ]

  rstrip-All : (s : Text) → All P s → All P (rstrip s)
  unfolding rstrip
  rstrip-All [] h = tt
  rstrip-All (c ∷ s) h = elim (Bool-cases (is_empty (rstrip s) && is_space c)) [
    | inl e ↦ rw (e, rstrip) tt
    | inr e ↦ rw (e, rstrip) (h.0, rstrip-All s h.1)
  ]

  strip-All : (s : Text) → All P s → All P (strip s)
  unfolding strip
  strip-All s h = lstrip-All (rstrip s) (rstrip-All s h)

  split_from-All : (cur s : Text) → All P cur → All P s → All (All P) (split_from cur s)
  unfolding split_from
  split_from-All [] [] hc h = tt
  split_from-All (d ∷ cur) [] hc h = (hc, tt)
  split_from-All [] (c ∷ s) hc h = elim (Bool-cases (is_space c)) [
    | inl e ↦ rw (e, split_from) (split_from-All [] s tt h.1)
    | inr e ↦ rw (e, split_from) (split_from-All (c ∷ []) s (h.0, tt) h.1)
  ]
  split_from-All (d ∷ cur) (c ∷ s) hc h = elim (Bool-cases (is_space c)) [
    | inl e ↦ rw (e, split_from) (hc, split_from-All [] s tt h.1)
    | inr e ↦
        rw (e, split_from)
          (split_from-All ((d ∷ cur) ++ c ∷ []) s (All-append P (d ∷ cur) (c ∷ []) hc (h.0, tt))
            h.1)
  ]

  join-All : (ws : List Text) → P 32 → All (All P) ws → All P (join (32 ∷ []) ws)
  unfolding join
  join-All [] p h = tt
  join-All (w ∷ []) p h = h.0
  join-All (w ∷ v ∷ ws) p h =
      All-append P w (32 ∷ join (32 ∷ []) (v ∷ ws)) h.0 (p, join-All (v ∷ ws) p h.1)

-- What `str.lower` does, as far as names rely on it: its result has only characters that it
-- leaves alone, the space is one of these, and it leaves a text of such characters as it is.
pub record IsLower (lower : Text → Text) : Type 1 where
  pub Stable : ℕ → Type 0
  pub lower-Stable : (s : Text) → All Stable (lower s)
  pub space-Stable : Stable 32
  pub lower_of_Stable : (s : Text) → All Stable s → lower s ≡ s

module _ {lower : Text → Text} (l : IsLower lower) where
  norm-Stable : (s : Text) → All l.Stable (norm lower s)
  unfolding norm split
  norm-Stable s =
      join-All l.Stable (split_from [] (lower (strip s))) l.space-Stable
        (split_from-All l.Stable [] (lower (strip s)) tt (l.lower-Stable (strip s)))

  -- Normalising a normal form changes nothing.
  pub norm-norm : (s : Text) → norm lower (norm lower s) ≡ norm lower s
  unfolding norm
  norm-norm s =
      ap (λ (t : Text). join (32 ∷ []) (split t))
        (l.lower_of_Stable (strip (norm lower s))
          (strip-All l.Stable (norm lower s) (norm-Stable s)))
      ∙ ap (join (32 ∷ [])) (split-strip (norm lower s) ∙ split-join (lower (strip s)))
