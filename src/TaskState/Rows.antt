-- ===== src/TaskState/Rows.antt =====
-- What a row is when it is read back: `from_dict` after `to_dict`, and `post_init` on a state that
-- has been through it.
use agent_memory_living_memo.Prelude.{
  ◌≡◌, refl, ap, ◌∙◌, arith, false, inl, inr, some, Option-cases, List, [], ◌∷◌, Text, Text_eq,
  codes, filter_by, is_empty, if◌then◌else◌,
}
use agent_memory_living_memo.Prelude.Dict
use agent_memory_living_memo.Prelude.Int.{pos, pos_part}
use agent_memory_living_memo.Prelude.Strings.{strip}
use agent_memory_living_memo.Prelude.Strings.Strip.{strip-strip}
use agent_memory_living_memo.Prelude.Results.{done}
use agent_memory_living_memo.TaskState.{
  TaskState, Host, nonempty, normalized, post_init, read_row, get,
}

nonempty-nonempty : (xs : List Text) → nonempty (nonempty xs) ≡ nonempty xs
unfolding filter_by
nonempty-nonempty [] = refl
nonempty-nonempty (x ∷ xs) = ground (arith, nonempty-nonempty xs)

status_again :
    (t : Text)
    → (let u = if is_empty t then codes "active" else t in if is_empty u then codes "active" else u)
      ≡ (if is_empty t then codes "active" else t)
unfolding is_empty
status_again [] = refl
status_again (c ∷ t) = refl

module _ {N : Type 0} (host : Host N) where
  time_again :
      (now later t : N)
      → host.is_zero now ≡ false
      → (let u = if host.is_zero t then now else t in if host.is_zero u then later else u)
        ≡ (if host.is_zero t then now else t)
  time_again now later t h = ground arith

  pub normalized-normalized :
      (now later : N) (s : TaskState N)
      → host.is_zero now ≡ false
      → normalized host later (normalized host now s) ≡ normalized host now s
  unfolding normalized
  normalized-normalized now later s h =
      rw
        (
          strip-strip,
          nonempty-nonempty s.constraints,
          nonempty-nonempty s.current_plan,
          nonempty-nonempty s.open_subtasks,
          nonempty-nonempty s.completed_subtasks,
          nonempty-nonempty s.irreversible_decisions,
          nonempty-nonempty s.tool_evidence_ids,
          nonempty-nonempty s.conflict_markers,
          status_again s.status,
          time_again now later s.created_at h,
          time_again (if host.is_zero s.created_at then now else s.created_at)
              (if host.is_zero s.created_at then now else s.created_at) s.updated_at
              (ground (arith, h)),
        )
        refl

  -- what a successful `post_init` gives
  pub post_init-done :
      (now : N) (s t : TaskState N)
      → post_init host now s ≡ done t
      → (t ≡ normalized host now s) × (is_empty (strip s.task_id) ≡ false)
  unfolding post_init
  post_init-done now s t h = ground arith

  post_init_of :
      (now : N) (s : TaskState N)
      → is_empty (strip s.task_id) ≡ false
      → post_init host now s ≡ done (normalized host now s)
  unfolding post_init
  post_init_of now s h = rw (h, post_init) refl

  normalized-task_id :
      (now : N) (s : TaskState N) → strip (normalized host now s).task_id ≡ strip s.task_id
  unfolding normalized
  normalized-task_id now s = strip-strip s.task_id

  -- A state that has been read, or made, is read back unchanged from the row that it is saved in.
  pub post_init_again :
      (now later : N) (s t : TaskState N)
      → host.is_zero now ≡ false
      → post_init host now s ≡ done t
      → post_init host later t ≡ done t
  post_init_again now later s t z h =
      let (e, f) = post_init-done now s t h in
      rw e (
        post_init_of later (normalized host now s) (ap is_empty (normalized-task_id now s) ∙ f)
        ∙ ap done (normalized-normalized now later s z))

  -- the id of a state that has been read or made is stripped
  pub post_init-task_id :
      (now : N) (s t : TaskState N) → post_init host now s ≡ done t → t.task_id ≡ strip s.task_id
  unfolding normalized
  post_init-task_id now s t h = ap (λ u. u.task_id) (post_init-done now s t h).0

  pub post_init-sequence :
      (now : N) (s t : TaskState N)
      → post_init host now s ≡ done t
      → t.checkpoint_sequence ≡ pos (pos_part s.checkpoint_sequence)
  unfolding normalized
  post_init-sequence now s t h = ap (λ u. u.checkpoint_sequence) (post_init-done now s t h).0

  -- what `get` finds was read from the row of that id
  pub get-some :
      (now : N) (id : Text) (table : List (Text × TaskState N)) (t : TaskState N)
      → get host now id table ≡ done (some t)
      → (row : TaskState N) × (Dict.get id table ≡ some row) × (post_init host now row ≡ done t)
  unfolding get read_row
  get-some now id table t h = elim (Option-cases (Dict.get id table)) [
    | inl e ↦ absurd (ground arith)
    | inr (row, e) ↦ (row, e, ground arith)
  ]
