-- ===== src/Lifecycle.antt =====
-- lifecycle.py: the state of a memory's life, and how it changes the memory's importance and score.
pub mod Bounds
pub mod Metadata
mod Tests
use agent_memory_living_memo.Prelude.{
  ℕ, Bool, true, false, not, ◌&&◌, ◌||◌, Option, none, some, List, [], ◌∷◌, map, Text, Text_eq,
  codes, ◌==◌, contains, any_of, filter_by, is_empty, if◌then◌else◌,
}
use agent_memory_living_memo.Prelude.Floats.{Floats, le, clamp, fmin}
use agent_memory_living_memo.Prelude.Strings.{strip, replace_char}

abbrev pub allowed_states : List Text
allowed_states =
    codes "active"
    ∷ codes "historical"
    ∷ codes "superseded"
    ∷ codes "contradicted"
    ∷ codes "archival"
    ∷ codes "deleted"
    ∷ []

-- The terms with an accented letter are spelled by its code point.
abbrev pub historical_query_terms : List Text
historical_query_terms =
    codes "anterior"
    ∷ codes "antiga"
    ∷ codes "antigo"
    ∷ codes "audit"
    ∷ codes "auditoria"
    ∷ codes "before"
    ∷ codes "evolution"
    ∷ codes "evolucao"
    ∷ (101 ∷ 118 ∷ 111 ∷ 108 ∷ 117 ∷ 231 ∷ 227 ∷ 111 ∷ [])
    ∷ codes "historical"
    ∷ codes "historico"
    ∷ (104 ∷ 105 ∷ 115 ∷ 116 ∷ 243 ∷ 114 ∷ 105 ∷ 99 ∷ 111 ∷ [])
    ∷ codes "history"
    ∷ codes "old"
    ∷ codes "passado"
    ∷ codes "past"
    ∷ codes "previous"
    ∷ []

abbrev pub current_query_terms : List Text
current_query_terms =
    codes "active"
    ∷ codes "atual"
    ∷ codes "current"
    ∷ codes "latest"
    ∷ codes "now"
    ∷ codes "recente"
    ∷ []

pub record LifecycleView (N : Type 0) : Type 0 where
  pub state : Text
  pub version : Option Text
  pub supersedes : List Text
  pub superseded_by : Option Text
  pub valid_from : Option N
  pub valid_to : Option N
  pub usage_count : ℕ
  pub last_used_at : Option N
  pub importance_delta : N
  pub base_importance : N

unfoldable pub is_deleted : {N : Type 0} → LifecycleView N → Bool
is_deleted v = v.state == codes "deleted"

-- `_state` of the text of a value, over the host's `str.lower`; an empty text is the default.
unfoldable pub state_of : (Text → Text) → Text → Text
unfolding strip replace_char contains is_empty
state_of lower value =
    let state =
      replace_char 32 95 (lower (strip (if is_empty value then codes "active" else value))) in
    if contains allowed_states state then state else codes "active"

-- `_terms`, whose set is only asked for common members
unfoldable pub terms_of : (Text → Text) → List Text → List Text
unfolding strip filter_by is_empty
terms_of lower values =
    map (λ item. lower (strip item)) (filter_by (λ item. not (is_empty (strip item))) values)

-- `bool(terms & of)`
unfoldable pub has_any : List Text → List Text → Bool
unfolding any_of contains
has_any terms of = any_of (contains of) terms

module _ (F : Floats) (lower : Text → Text) where
  open F use {Float, lt, add, sub, mul, of_ℕ, hundredths, log1p}

  unfoldable pub active_at : LifecycleView Float → Option Float → Bool
  active_at v none = true
  active_at v (some t) =
      (elim v.valid_from [ none ↦ true | some f ↦ le F f t ])
      && (elim v.valid_to [ none ↦ true | some e ↦ le F t e ])

  -- a literal below zero
  abbrev minus : ℕ → Float
  minus n = sub (of_ℕ 0) (hundredths n)

  abbrev pub table_adjustment : Text → Float
  table_adjustment state =
      if state == codes "historical"
      then minus 10
      else if state == codes "superseded"
      then minus 28
      else if state == codes "contradicted"
      then minus 22
      else if state == codes "archival"
      then minus 35
      else of_ℕ 0

  -- historical, superseded or archival
  abbrev pub is_past : Text → Bool
  is_past state =
      (state == codes "historical") || (state == codes "superseded") || (state == codes "archival")

  unfoldable pub state_adjustment : LifecycleView Float → List Text → Option Float → Float
  unfolding has_any active_at
  state_adjustment v terms at_time =
      let historical = has_any terms historical_query_terms in
      let current = has_any terms current_query_terms in
      let a = table_adjustment v.state in
      let b = if historical && is_past v.state then add a (hundredths 25) else a in
      let c =
        if historical && (v.state == codes "contradicted") then add b (hundredths 10) else b in
      let d = if current && (v.state == codes "superseded") then sub c (hundredths 12) else c in
      if not (active_at v at_time) && not historical then sub d (hundredths 50) else d

  -- `base_importance` is None or a number that is clamped.
  unfoldable pub effective_importance :
      LifecycleView Float → Option Float → List Text → Option Float → Float
  unfolding is_deleted state_adjustment clamp fmin terms_of
  effective_importance v base_importance query_terms at_time =
      let base : Float = elim base_importance [ none ↦ v.base_importance | some b ↦ clamp F b ] in
      let adjustment = state_adjustment v (terms_of lower query_terms) at_time in
      let usage_bonus = fmin F (hundredths 12) (mul (log1p (of_ℕ v.usage_count)) (hundredths 3)) in
      if is_deleted v
      then of_ℕ 0
      else clamp F (add (add (add base v.importance_delta) adjustment) usage_bonus)

  unfoldable pub adjusted_score : LifecycleView Float → Float → List Text → Option Float → Float
  unfolding is_deleted effective_importance has_any terms_of clamp
  adjusted_score v score query_terms at_time =
      let base = clamp F v.base_importance in
      let effective = effective_importance v none query_terms at_time in
      let terms = terms_of lower query_terms in
      let a = mul (sub effective base) (hundredths 65) in
      let b =
        if (v.state == codes "superseded") && has_any terms current_query_terms
        then sub a (hundredths 18)
        else a in
      let c =
        if (v.state == codes "contradicted") && not (has_any terms historical_query_terms)
        then sub b (hundredths 20)
        else b in
      let d =
        if is_past v.state && has_any terms historical_query_terms
        then add c (hundredths 16)
        else c in
      if is_deleted v then of_ℕ 0 else clamp F (add score d)

  unfoldable pub should_recall : LifecycleView Float → List Text → Option Float → Bool
  unfolding is_deleted active_at has_any terms_of
  should_recall v query_terms at_time =
      if is_deleted v
      then false
      else if not (active_at v at_time)
          && not (has_any (terms_of lower query_terms) historical_query_terms)
      then false
      else true
