-- ===== src/Lifecycle/Metadata.antt =====
-- `lifecycle_for`: the view that a memory's metadata give. Python's conversions of values to text and
-- to numbers are parameters.
use agent_memory_living_memo.Prelude.{
  ℕ, Bool, true, false, not, ◌||◌, Option, none, some, List, [], ◌∷◌, Text, Text_eq, codes,
  filter_by, is_empty, if◌then◌else◌,
}
use agent_memory_living_memo.Prelude.Dict
use agent_memory_living_memo.Prelude.Floats.{Floats}
use agent_memory_living_memo.Prelude.Int.{ℤ, pos, negsuc}
use agent_memory_living_memo.Prelude.Strings.{strip}
use agent_memory_living_memo.Schema.{MemoryEnvelope}
use agent_memory_living_memo.Schema.Values.{
  Json, null, bool, num, text, list, dict, Items, nil, cons, Fields, end, field, find_field,
}
use agent_memory_living_memo.Lifecycle.{LifecycleView, state_of}

-- `str(value)`, `float(value)`, `int(value)` and `int(float(value))`; `none` is a TypeError or a
-- ValueError. The OverflowError of a number that is too large, or infinite, is left out.
pub record Convert (N : Type 0) : Type 0 where
  pub str : Json N → Text
  pub float : Json N → Option N
  pub int : Json N → Option ℤ
  pub int_of_float : Json N → Option ℤ

abbrev pub non_negative : ℤ → ℕ
non_negative (pos n) = n
non_negative (negsuc n) = 0

module _ {N : Type 0} (convert : Convert N) where
  -- `value is None or value == ""`
  unfoldable pub is_missing : Json N → Bool
  unfolding is_empty
  is_missing null = true
  is_missing (text s) = is_empty s
  is_missing _ = false

  unfoldable pub optional_float : Json N → Option N
  unfolding is_missing
  optional_float v = if is_missing v then none else convert.float v

  unfoldable pub optional_int : Json N → ℕ
  unfolding is_missing
  optional_int v = if is_missing v then 0 else elim (convert.int v) [
    | some n ↦ non_negative n
    | none ↦ elim (convert.int_of_float v) [ some n ↦ non_negative n | none ↦ 0 ]
  ]

  abbrev pub filled : Text → Option Text
  filled [] = none
  filled (c ∷ s) = some (c ∷ s)

  unfoldable pub optional_str : Json N → Option Text
  unfolding strip
  optional_str null = none
  optional_str v = filled (strip (convert.str v))

  unfoldable pub texts_of : Items N → List Text
  texts_of nil = []
  texts_of (cons v vs) = convert.str v ∷ texts_of vs

  unfoldable pub string_list : Json N → List Text
  unfolding texts_of filter_by is_empty
  string_list null = []
  string_list (list vs) = filter_by (λ s. not (is_empty s)) (texts_of vs)
  string_list v = convert.str v ∷ []

module _ (F : Floats) (convert : Convert F.Float) (lower : Text → Text) where
  open F use {Float, lt, of_ℕ}

  -- the text of a value that is true, or none
  unfoldable pub text_of_true : Json Float → Text
  text_of_true null = []
  text_of_true (bool false) = []
  text_of_true (bool true) = convert.str (bool true)
  text_of_true (num x) = if lt x (of_ℕ 0) || lt (of_ℕ 0) x then convert.str (num x) else []
  text_of_true (text s) = s
  text_of_true (list nil) = []
  text_of_true (list (cons v vs)) = convert.str (list (cons v vs))
  text_of_true (dict end) = []
  text_of_true (dict (field k v fs)) = convert.str (dict (field k v fs))

  abbrev pub fields_of : Option (Json Float) → Fields Float
  fields_of (some (dict fs)) = fs
  fields_of _ = end

  abbrev pub value_of : Fields Float → Text → Json Float
  value_of data' key =
      elim (find_field (λ x y. not (lt x y) || not (lt y x)) (λ b. of_ℕ 0) key data') [
        | none ↦ null
        | some v ↦ v
      ]

  abbrev pub or_zero : Option Float → Float
  or_zero none = of_ℕ 0
  or_zero (some x) = x

  unfoldable pub lifecycle_for : MemoryEnvelope Float → LifecycleView Float
  unfolding Dict.get find_field state_of text_of_true optional_str string_list optional_float
      optional_int
  lifecycle_for memory =
      let data' = fields_of (Dict.get (codes "lifecycle") memory.metadata) in
      record {
        state = state_of lower (text_of_true (value_of data' (codes "state")));
        version = optional_str convert (value_of data' (codes "version"));
        supersedes = string_list convert (value_of data' (codes "supersedes"));
        superseded_by = optional_str convert (value_of data' (codes "superseded_by"));
        valid_from = optional_float convert (value_of data' (codes "valid_from"));
        valid_to = optional_float convert (value_of data' (codes "valid_to"));
        usage_count = optional_int convert (value_of data' (codes "usage_count"));
        last_used_at = optional_float convert (value_of data' (codes "last_used_at"));
        importance_delta =
            or_zero (optional_float convert (value_of data' (codes "importance_delta")));
        base_importance = memory.importance;
      }
