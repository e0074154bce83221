-- ===== src/TaskState.antt =====
-- task_state.py: the state of long tasks, one row for a task, with a checkpoint number that guards
-- against stale writers. A row's JSON text is the value that it decodes to.
pub mod Rows
pub mod Checkpoints
pub mod Runs
mod Tests
use agent_memory_living_memo.Prelude.{
  ◌||◌, ℕ, ◌+◌, ◌-◌, Bool, true, false, not, ◌&&◌, Option, none, some, List, [], ◌∷◌, ◌++◌, Text,
  Text_eq, codes, filter_by, is_empty, if◌then◌else◌, ltb, take, length,
}
use agent_memory_living_memo.Prelude.Dict
use agent_memory_living_memo.Prelude.Int.{ℤ, pos, negsuc, pos_part, neg_part, ◌+ℤ◌}
use agent_memory_living_memo.Prelude.Strings.{strip}
use agent_memory_living_memo.Prelude.Results.{Result, raised, done, and_then}
use agent_memory_living_memo.Schema.{Dict}
use agent_memory_living_memo.Schema.Values.{Json, Items, Fields}

-- What the store takes from its surroundings: `str(value)` of a value that is no text, `str` of an
-- integer, `int(value)` and `dict(value)` with `none` for their exceptions, and the test for 0.0.
pub record Host (N : Type 0) : Type 0 where
  pub str_of : Json N → Text
  pub int_text : ℤ → Text
  pub int_of : Json N → Option ℤ
  pub dict_of : Json N → Option (Dict N)
  pub is_zero : N → Bool

pub record TaskState (N : Type 0) : Type 0 where
  pub task_id : Text
  pub scope : Dict N
  pub objective : Text
  pub constraints : List Text
  pub current_plan : List Text
  pub open_subtasks : List Text
  pub completed_subtasks : List Text
  pub irreversible_decisions : List Text
  pub tool_evidence_ids : List Text
  pub conflict_markers : List Text
  pub status : Text
  pub checkpoint_id : Text
  pub checkpoint_sequence : ℤ
  pub created_at : N
  pub updated_at : N

-- The ValueErrors of a missing id and of a stale checkpoint, and the error of a value that is no
-- integer or no dictionary.
pub data Failure : Type 0 where
  task_id_required : Failure
  stale_checkpoint : ℤ → ℤ → Failure
  bad_value : Failure
  overflow : Failure

-- `a < b` on integers
unfoldable pub lt_ℤ : ℤ → ℤ → Bool
lt_ℤ a b = ltb (pos_part a + neg_part b) (pos_part b + neg_part a)

-- whether SQLite cannot store the integer, in 64 bits
unfoldable pub overflows : ℤ → Bool
overflows n = ltb 9223372036854775807 (pos_part n) || ltb 9223372036854775808 (neg_part n)

-- the items that are not empty
abbrev pub nonempty : List Text → List Text
nonempty = filter_by (λ item. not (is_empty item))

module _ {N : Type 0} where
  -- the arguments of a state that is new
  abbrev pub blank : N → Text → Dict N → TaskState N
  blank now task_id scope = record {
    task_id = task_id;
    scope = scope;
    objective = [];
    constraints = [];
    current_plan = [];
    open_subtasks = [];
    completed_subtasks = [];
    irreversible_decisions = [];
    tool_evidence_ids = [];
    conflict_markers = [];
    status = codes "active";
    checkpoint_id = [];
    checkpoint_sequence = pos 0;
    created_at = now;
    updated_at = now;
  }

  -- `patch.get("checkpoint_sequence")`, where None is no request
  unfoldable pub requested : Dict N → Option (Json N)
  unfolding Dict.get
  requested patch = elim (Dict.get (codes "checkpoint_sequence") patch) [
    | none ↦ none
    | some Json.null ↦ none
    | some v ↦ some v
  ]

  -- INSERT OR REPLACE of the row
  unfoldable pub filed : TaskState N → List (Text × TaskState N) → List (Text × TaskState N)
  unfolding Dict.put
  filed s table = Dict.put s.task_id s table

  -- `_save`; SQLite takes integers of 64 bits, others are an OverflowError
  unfoldable pub save :
      TaskState N → List (Text × TaskState N) → Result Failure (List (Text × TaskState N))
  unfolding filed overflows
  save s table =
      if overflows s.checkpoint_sequence then raised Failure.overflow else done (filed s table)

  abbrev pub is_some : Option (TaskState N) → Bool
  is_some none = false
  is_some (some s) = true

  unfoldable pub count : List (Text × TaskState N) → ℕ
  count table = length table

module _ {N : Type 0} (host : Host N) where
  -- `bool(value)`
  unfoldable pub truthy : Json N → Bool
  unfolding is_empty
  truthy Json.null = false
  truthy (Json.bool b) = b
  truthy (Json.num n) = not (host.is_zero n)
  truthy (Json.text t) = not (is_empty t)
  truthy (Json.list Items.nil) = false
  truthy (Json.list (Items.cons v vs)) = true
  truthy (Json.dict Fields.end) = false
  truthy (Json.dict (Fields.field k v fs)) = true

  -- `str(value)`
  unfoldable pub text_of : Json N → Text
  text_of (Json.text t) = t
  text_of v = host.str_of v

  -- `[str(item) for item in value]`
  unfoldable pub texts_of : Items N → List Text
  unfolding text_of
  texts_of Items.nil = []
  texts_of (Items.cons v vs) = text_of v ∷ texts_of vs

  unfoldable pub string_list : Json N → List Text
  unfolding texts_of filter_by is_empty
  string_list Json.null = []
  string_list (Json.text t) = nonempty (t ∷ [])
  string_list (Json.list vs) = nonempty (texts_of vs)
  string_list v = host.str_of v ∷ []

  -- the fields after `__post_init__`, for a state whose lists hold texts, as those of a row do
  unfoldable pub normalized : N → TaskState N → TaskState N
  unfolding strip is_empty filter_by
  normalized now s =
      let created_at = if host.is_zero s.created_at then now else s.created_at in
      record s {
        task_id = strip s.task_id;
        constraints = nonempty s.constraints;
        current_plan = nonempty s.current_plan;
        open_subtasks = nonempty s.open_subtasks;
        completed_subtasks = nonempty s.completed_subtasks;
        irreversible_decisions = nonempty s.irreversible_decisions;
        tool_evidence_ids = nonempty s.tool_evidence_ids;
        conflict_markers = nonempty s.conflict_markers;
        status = if is_empty s.status then codes "active" else s.status;
        checkpoint_sequence = pos (pos_part s.checkpoint_sequence);
        created_at = created_at;
        updated_at = if host.is_zero s.updated_at then created_at else s.updated_at;
      }

  unfoldable pub post_init : N → TaskState N → Result Failure (TaskState N)
  unfolding normalized strip is_empty
  post_init now s =
      if is_empty (strip s.task_id)
      then raised Failure.task_id_required
      else done (normalized now s)

  unfoldable pub read_row : N → Option (TaskState N) → Result Failure (Option (TaskState N))
  unfolding post_init
  read_row now none = done none
  read_row now (some row) = and_then (post_init now row) (λ s. done (some s))

  unfoldable pub get : N → Text → List (Text × TaskState N) → Result Failure (Option (TaskState N))
  unfolding read_row Dict.get
  get now task_id table = read_row now (Dict.get task_id table)

  -- The state that `update` starts from.
  unfoldable pub opened : N → Text → Dict N → Option (TaskState N) → Result Failure (TaskState N)
  unfolding post_init is_empty
  opened now task_id scope none = post_init now (blank now task_id scope)
  opened now task_id scope (some existing) =
      and_then (post_init now existing)
        (λ s. done (if is_empty scope then s else record s { scope = scope }))

  unfoldable pub next_sequence : Bool → Option (Json N) → ℤ → Result Failure ℤ
  unfolding lt_ℤ ◌+ℤ◌
  next_sequence exists none current =
      done (if lt_ℤ (pos 1) (current +ℤ pos 1) then current +ℤ pos 1 else pos 1)
  next_sequence exists (some v) current = elim (host.int_of v) [
    | none ↦ raised Failure.bad_value
    | some r ↦
        if exists && lt_ℤ r current then raised (Failure.stale_checkpoint r current) else done r
  ]

  unfoldable pub patch_string : Dict N → Text → Text → Text
  unfolding Dict.get truthy text_of
  patch_string patch name old = elim (Dict.get name patch) [
    | none ↦ old
    | some v ↦ if truthy v then text_of v else []
  ]

  unfoldable pub patch_list : Dict N → Text → List Text → List Text
  unfolding Dict.get string_list
  patch_list patch name old = elim (Dict.get name patch) [ none ↦ old | some v ↦ string_list v ]

  unfoldable pub patch_scope : Dict N → Dict N → Result Failure (Dict N)
  unfolding Dict.get truthy
  patch_scope patch old = elim (Dict.get (codes "scope") patch) [
    | none ↦ done old
    | some v ↦
        if truthy v
        then elim (host.dict_of v) [ none ↦ raised Failure.bad_value | some d ↦ done d ]
        else done []
  ]

  -- The fields that the patch names, and the time of the change.
  unfoldable pub patched : N → Dict N → ℤ → Dict N → TaskState N → TaskState N
  unfolding patch_string patch_list is_empty
  patched later patch sequence scope s =
      let checkpoint_id = patch_string patch (codes "checkpoint_id") s.checkpoint_id in
      record s {
        scope = scope;
        objective = patch_string patch (codes "objective") s.objective;
        status = patch_string patch (codes "status") s.status;
        constraints = patch_list patch (codes "constraints") s.constraints;
        current_plan = patch_list patch (codes "current_plan") s.current_plan;
        open_subtasks = patch_list patch (codes "open_subtasks") s.open_subtasks;
        completed_subtasks = patch_list patch (codes "completed_subtasks") s.completed_subtasks;
        irreversible_decisions =
            patch_list patch (codes "irreversible_decisions") s.irreversible_decisions;
        tool_evidence_ids = patch_list patch (codes "tool_evidence_ids") s.tool_evidence_ids;
        conflict_markers = patch_list patch (codes "conflict_markers") s.conflict_markers;
        checkpoint_sequence = sequence;
        checkpoint_id =
            if is_empty checkpoint_id
            then codes "ckpt_" ++ host.int_text sequence
            else checkpoint_id;
        updated_at = later;
      }

  -- The clock reads `now`, and `later` when the patch has been applied. An error leaves the table
  -- as it was.
  unfoldable pub update :
      N
      → N
      → Text
      → Dict N
      → Dict N
      → List (Text × TaskState N)
      → Result Failure (List (Text × TaskState N) × TaskState N)
  unfolding get opened requested next_sequence patch_scope patched save
  update now later task_id scope patch table = and_then (get now task_id table) (λ existing.
      and_then (opened now task_id scope existing) (λ s.
        and_then (next_sequence (is_some existing) (requested patch) s.checkpoint_sequence)
          (λ sequence. and_then (patch_scope patch s.scope) (λ new_scope.
            let state = patched later patch sequence new_scope s in
            and_then (save state table) (λ table'. done (table', state))))))

-- `compact(max_items=6)`: the state with its lists cut
unfoldable pub compact : {N : Type 0} → ℕ → TaskState N → TaskState N
unfolding take
compact max_items s = record s {
  constraints = take max_items s.constraints;
  current_plan = take max_items s.current_plan;
  open_subtasks = take max_items s.open_subtasks;
  completed_subtasks = take max_items s.completed_subtasks;
  irreversible_decisions = take max_items s.irreversible_decisions;
  tool_evidence_ids = take max_items s.tool_evidence_ids;
  conflict_markers = take max_items s.conflict_markers;
}
