-- ===== src/Prelude/Dict.antt =====
-- Python's `dict`, as the list of its items in insertion order.
use agent_memory_living_memo.Prelude.Tests.{if◌then◌else◌, Bool-cases}
use agent_memory_living_memo.Prelude.Equality.{Eq, ◌==◌, contains, Distinct}
use agent_memory_living_memo.Prelude.Lists.{All}
use mathlib.Core.Bool.{true, false}
use mathlib.Core.Logic.{inl, inr}
use mathlib.Core.Path.{◌≡◌, refl}
use mathlib.Core.Option.{Option, none, some}
use mathlib.Core.List.{List, [], ◌∷◌, map}
use native.Mathlib.Omega.{arith}

module _ {ℓ κ} {K : Type ℓ} {V : Type κ} ⦃e : Eq K⦄ where
  -- `d.get(k)`
  unfoldable pub get : K → List (K × V) → Option V
  get key [] = none
  get key ((first, v) ∷ rest) = if first == key then some v else get key rest

  -- `d[k] = v`: an old key keeps its place
  unfoldable pub put : K → V → List (K × V) → List (K × V)
  put key v [] = (key, v) ∷ []
  put key v ((first, w) ∷ rest) =
      if first == key then (first, v) ∷ rest else (first, w) ∷ put key v rest

  -- `del d[k]`, or nothing if the key is absent
  unfoldable pub remove : K → List (K × V) → List (K × V)
  remove key [] = []
  remove key ((first, w) ∷ rest) =
      if first == key then remove key rest else (first, w) ∷ remove key rest

  pub get-put :
      (key asked : K) (v : V) (rest : List (K × V))
      → get asked (put key v rest) ≡ (if key == asked then some v else get asked rest)
  unfolding get put
  get-put key asked v [] = refl
  get-put key asked v ((first, w) ∷ rest) = ground (
    arith,
    e.same_iff first key,
    e.same_iff first asked,
    e.same_iff key asked,
    get-put key asked v rest,
  )

  pub get-remove :
      (key asked : K) (rest : List (K × V))
      → get asked (remove key rest) ≡ (if key == asked then none else get asked rest)
  unfolding get remove
  get-remove key asked [] = ground arith
  get-remove key asked ((first, w) ∷ rest) = ground (
    arith,
    e.same_iff first key,
    e.same_iff first asked,
    e.same_iff key asked,
    get-remove key asked rest,
  )

  -- a new key that is removed again leaves no trace
  pub remove-put :
      (key : K) (v : V) (rest : List (K × V))
      → get key rest ≡ none
      → remove key (put key v rest) ≡ rest
  unfolding get put remove
  remove-put key v [] h = ground (arith, e.same_iff key key)
  remove-put key v ((first, w) ∷ rest) h = ground (arith, remove-put key v rest)

  abbrev pub keys : List (K × V) → List K
  keys = map (λ item. item.0)

  pub contains-keys-put :
      (key asked : K) (v : V) (rest : List (K × V))
      → contains (keys (put key v rest)) asked
        ≡ (if key == asked then true else contains (keys rest) asked)
  unfolding put contains
  contains-keys-put key asked v [] = ground arith
  contains-keys-put key asked v ((first, w) ∷ rest) = ground (
    arith,
    e.same_iff first key,
    e.same_iff first asked,
    e.same_iff key asked,
    contains-keys-put key asked v rest,
  )

  pub put-Distinct :
      (key : K) (v : V) (rest : List (K × V))
      → Distinct (keys rest)
      → Distinct (keys (put key v rest))
  unfolding put contains
  put-Distinct key v [] h = (refl, tt)
  put-Distinct key v ((first, w) ∷ rest) h = ground (
    arith,
    e.same_iff first key,
    e.same_iff key first,
    contains-keys-put key first v rest,
    put-Distinct key v rest,
  )

  pub get_of_absent :
      (key : K) (rest : List (K × V)) → contains (keys rest) key ≡ false → get key rest ≡ none
  unfolding get contains
  get_of_absent key [] h = refl
  get_of_absent key ((first, w) ∷ rest) h = ground (arith, get_of_absent key rest)

  module _ {μ} (P : V → Type μ) where
    pub All-put :
        (key : K) (v : V) (rest : List (K × V))
        → P v
        → All (λ item. P item.1) rest
        → All (λ item. P item.1) (put key v rest)
    unfolding put
    All-put key v [] p h = (p, tt)
    All-put key v ((first, w) ∷ rest) p h = elim (Bool-cases (first == key)) [
      | inl asked ↦ rw (asked, put) (p, h.1)
      | inr asked ↦ rw (asked, put) (h.0, All-put key v rest p h.1)
    ]

    pub All-get :
        (key : K) (rest : List (K × V)) {v : V}
        → All (λ item. P item.1) rest
        → get key rest ≡ some v
        → P v
    unfolding get
    All-get key [] {v} h asked = absurd (ground arith)
    All-get key ((first, w) ∷ rest) {v} h asked = elim (Bool-cases (first == key)) [
      | inl r ↦ let e' : w ≡ v = ground arith in rw (← e') h.0
      | inr r ↦ All-get key rest h.1 (ground arith)
    ]
