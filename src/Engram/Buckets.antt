-- ===== src/Engram/Buckets.antt =====
-- A bucket seen from outside: the ids that each signature has.
use agent_memory_living_memo.Prelude.{
  ◌≡◌, refl, sym, ap, arith, true, false, inl, inr, Bool-cases, Option, none, some, List, [], ◌∷◌,
  ◌++◌, map, All, Text, Text_eq, text_eq_iff, ◌==◌, contains, Distinct, if◌then◌else◌,
}
use agent_memory_living_memo.Engram.{EngramEntry, touch, touch_entry, replace_entry}

module _ {N : Type 0} where
  abbrev pub signatures : List (EngramEntry N) → List Text
  signatures = map (λ e. e.signature)

  -- the ids of the first entry with the signature
  unfoldable pub ids_at : Text → List (EngramEntry N) → Option (List Text)
  ids_at s [] = none
  ids_at s (e ∷ bucket) = if e.signature == s then some e.memory_ids else ids_at s bucket

  pub ids_at-none_iff-absent :
      (s : Text) (b : List (EngramEntry N)) → contains (signatures b) s ≡ false → ids_at s b ≡ none
  unfolding ids_at contains
  ids_at-none_iff-absent s [] h = refl
  ids_at-none_iff-absent s (e ∷ b) h = ground (arith, ids_at-none_iff-absent s b)

  -- what `touch_entry` finds: nothing, or the first entry of the signature, with a bucket that
  -- shows the same ids
  abbrev pub Touched :
      Text → List (EngramEntry N) → Option (EngramEntry N × List (EngramEntry N)) → Type 0
  Touched s b none = (contains (signatures b) s ≡ false) × (ids_at s b ≡ none)
  Touched s b (some (e, b')) =
      (ids_at s b ≡ some e.memory_ids)
      × (signatures b' ≡ signatures b)
      × ((q : Text) → ids_at q b' ≡ ids_at q b)

  Touched-later :
      (s : Text) (e : EngramEntry N) (b : List (EngramEntry N))
      (o : Option (EngramEntry N × List (EngramEntry N)))
      → (e.signature == s) ≡ false
      → Touched s b o
      → Touched s (e ∷ b) (elim o [ none ↦ none | some (found, rest) ↦ some (found, e ∷ rest) ])
  unfolding ids_at contains
  Touched-later s e b none h t = (ground arith, ground arith)
  Touched-later s e b (some (f, b')) h t =
      (ground arith, ap (◌∷◌ e.signature) t.1, λ q. ground (arith, t.2 q))

  pub touch_entry-Touched :
      (now : N) (s : Text) (b : List (EngramEntry N)) → Touched s b (touch_entry now s b)
  unfolding touch_entry ids_at contains
  touch_entry-Touched now s [] = (refl, refl)
  touch_entry-Touched now s (e ∷ b) = elim (Bool-cases (e.signature == s)) [
    | inl h ↦ rw (h, touch_entry) (rw h refl, refl, λ q. refl)
    | inr h ↦
        rw (h, touch_entry)
          (Touched-later s e b (touch_entry now s b) h (touch_entry-Touched now s b))
  ]

  -- what `replace_entry` does: nothing where the signature is new, or the ids replaced in place
  abbrev pub Replaced :
      EngramEntry N → List (EngramEntry N) → Option (List (EngramEntry N)) → Type 0
  Replaced e b none = contains (signatures b) e.signature ≡ false
  Replaced e b (some b') =
      (contains (signatures b) e.signature ≡ true)
      × (signatures b' ≡ signatures b)
      × ((q : Text) → ids_at q b' ≡ (if e.signature == q then some e.memory_ids else ids_at q b))

  Replaced-later :
      (e f : EngramEntry N) (b : List (EngramEntry N)) (o : Option (List (EngramEntry N)))
      → (f.signature == e.signature) ≡ false
      → Replaced e b o
      → Replaced e (f ∷ b) (elim o [ none ↦ none | some rest ↦ some (f ∷ rest) ])
  unfolding ids_at contains
  Replaced-later e f b none h r = ground arith
  Replaced-later e f b (some b') h r = (
    ground arith,
    ap (◌∷◌ f.signature) r.1,
    λ q. ground (
      arith,
      r.2 q,
      text_eq_iff f.signature q,
      text_eq_iff e.signature q,
      text_eq_iff f.signature e.signature,
    ),
  )

  pub replace_entry-Replaced :
      (e : EngramEntry N) (b : List (EngramEntry N)) → Replaced e b (replace_entry e b)
  unfolding replace_entry ids_at contains
  replace_entry-Replaced e [] = refl
  replace_entry-Replaced e (f ∷ b) = elim (Bool-cases (f.signature == e.signature)) [
    | inl h ↦
        rw (h, replace_entry)
          (
            rw h refl,
            ap (λ s. s ∷ signatures b) (sym ((text_eq_iff f.signature e.signature).0 h)),
            λ q. ground (
              arith,
              text_eq_iff f.signature q,
              text_eq_iff e.signature q,
              text_eq_iff f.signature e.signature,
            ),
          )
    | inr h ↦
        rw (h, replace_entry)
          (Replaced-later e f b (replace_entry e b) h (replace_entry-Replaced e b))
  ]

  pub ids_at-append :
      (e : EngramEntry N) (b : List (EngramEntry N)) (q : Text)
      → contains (signatures b) e.signature ≡ false
      → ids_at q (b ++ e ∷ []) ≡ (if e.signature == q then some e.memory_ids else ids_at q b)
  unfolding ids_at contains
  ids_at-append e [] q h = refl
  ids_at-append e (f ∷ b) q h = ground (
    arith,
    ids_at-append e b q,
    text_eq_iff f.signature q,
    text_eq_iff e.signature q,
    text_eq_iff f.signature e.signature,
  )

  contains-signatures-append :
      (e : EngramEntry N) (b : List (EngramEntry N)) (q : Text)
      → contains (signatures (b ++ e ∷ [])) q
        ≡ (if e.signature == q then true else contains (signatures b) q)
  unfolding contains
  contains-signatures-append e [] q = ground arith
  contains-signatures-append e (f ∷ b) q = ground (arith, contains-signatures-append e b q)

  pub signatures-append-Distinct :
      (e : EngramEntry N) (b : List (EngramEntry N))
      → contains (signatures b) e.signature ≡ false
      → Distinct (signatures b)
      → Distinct (signatures (b ++ e ∷ []))
  unfolding contains
  signatures-append-Distinct e [] h d = (refl, tt)
  signatures-append-Distinct e (f ∷ b) h d = ground (
    arith,
    signatures-append-Distinct e b,
    contains-signatures-append e b f.signature,
    text_eq_iff f.signature e.signature,
    text_eq_iff e.signature f.signature,
  )

  -- properties that all entries of a bucket have
  module _ (P : EngramEntry N → Type 0)
      (kept : (now : N) (e : EngramEntry N) → P e → P (touch now e)) where
    abbrev pub AllTouched : Option (EngramEntry N × List (EngramEntry N)) → Type 0
    AllTouched none = Unit
    AllTouched (some (e, b')) = P e × All P b'

    all_later :
        (e : EngramEntry N) (o : Option (EngramEntry N × List (EngramEntry N)))
        → P e
        → AllTouched o
        → AllTouched (elim o [ none ↦ none | some (found, rest) ↦ some (found, e ∷ rest) ])
    all_later e none p h = tt
    all_later e (some (f, b')) p h = (h.0, (p, h.1))

    pub touch_entry-All :
        (now : N) (s : Text) (b : List (EngramEntry N)) → All P b → AllTouched (touch_entry now s b)
    unfolding touch_entry
    touch_entry-All now s [] h = tt
    touch_entry-All now s (e ∷ b) h = elim (Bool-cases (e.signature == s)) [
      | inl q ↦ rw (q, touch_entry) (h.0, (kept now e h.0, h.1))
      | inr q ↦
          rw (q, touch_entry) (all_later e (touch_entry now s b) h.0 (touch_entry-All now s b h.1))
    ]

  module _ (P : EngramEntry N → Type 0) where
    abbrev pub AllReplaced : Option (List (EngramEntry N)) → Type 0
    AllReplaced none = Unit
    AllReplaced (some b') = All P b'

    AllReplaced-later :
        (e : EngramEntry N) (o : Option (List (EngramEntry N)))
        → P e
        → AllReplaced o
        → AllReplaced (elim o [ none ↦ none | some rest ↦ some (e ∷ rest) ])
    AllReplaced-later e none p h = tt
    AllReplaced-later e (some b') p h = (p, h)

    pub replace_entry-All :
        (e : EngramEntry N) (b : List (EngramEntry N))
        → P e
        → All P b
        → AllReplaced (replace_entry e b)
    unfolding replace_entry
    replace_entry-All e [] p h = tt
    replace_entry-All e (f ∷ b) p h = elim (Bool-cases (f.signature == e.signature)) [
      | inl q ↦ rw (q, replace_entry) (p, h.1)
      | inr q ↦
          rw (q, replace_entry)
            (AllReplaced-later f (replace_entry e b) h.0 (replace_entry-All e b p h.1))
    ]
