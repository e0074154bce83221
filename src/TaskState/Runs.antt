-- ===== src/TaskState/Runs.antt =====
-- Any sequence of updates, those that raise an error included.
use agent_memory_living_memo.Prelude.{
  ℕ, ◌≤◌, ◌≡◌, refl, ap, ◌∙◌, sym, subst, arith, false, inl, inr, Bool-cases, Option, none, some,
  Option-cases, List, [], ◌∷◌, All, Text, Text_eq, text_eq_iff, ◌==◌,
}
use agent_memory_living_memo.Prelude.Dict
use agent_memory_living_memo.Prelude.Int.{pos_part}
use agent_memory_living_memo.Prelude.Strings.{strip}
use agent_memory_living_memo.Prelude.Results.{Result, raised, done, Result-cases}
use agent_memory_living_memo.Schema.{Dict}
use agent_memory_living_memo.TaskState.{
  TaskState, Failure, Host, lt_ℤ, post_init, get, read_row, opened, blank, filed, update,
}
use agent_memory_living_memo.TaskState.Rows.{post_init-task_id, post_init-sequence, get-some}
use agent_memory_living_memo.TaskState.Checkpoints.{
  update-Updated, update-sequence, patched-task_id,
}

pub record Call (N : Type 0) : Type 0 where
  pub now : N
  pub later : N
  pub task_id : Text
  pub scope : Dict N
  pub patch : Dict N

-- Every row is filed under its id, and ids are stripped.
abbrev pub IsTable : {N : Type 0} → List (Text × TaskState N) → Type 0
IsTable {N} table =
    (id : Text) (row : TaskState N)
    → Dict.get id table ≡ some row
    → (row.task_id ≡ id) × (strip id ≡ id)

-- the checkpoint number that is stored for a task, 0 when there is none
abbrev pub stored_sequence : {N : Type 0} → Text → List (Text × TaskState N) → ℕ
stored_sequence id table = elim (Dict.get id table) [
  | none ↦ 0
  | some row ↦ pos_part row.checkpoint_sequence
]

module _ {N : Type 0} (host : Host N) where
  -- the table that a call leaves behind: on an error, the one that it found
  abbrev pub kept :
      List (Text × TaskState N)
      → Result Failure (List (Text × TaskState N) × TaskState N)
      → List (Text × TaskState N)
  kept table (raised e) = table
  kept table (done (table', t)) = table'

  unfoldable pub step : Call N → List (Text × TaskState N) → List (Text × TaskState N)
  unfolding update
  step c table = kept table (update host c.now c.later c.task_id c.scope c.patch table)

  unfoldable pub run : List (Call N) → List (Text × TaskState N) → List (Text × TaskState N)
  unfolding step
  run [] table = table
  run (c ∷ calls) table = run calls (step c table)

  -- A call under a stripped id, while the clock does not read 0.0.
  pub record IsCall (c : Call N) : Type 0 where
    pub clean : strip c.task_id ≡ c.task_id
    pub running : host.is_zero c.now ≡ false

  opened-task_id :
      (now : N) (id : Text) (scope : Dict N) (o : Option (TaskState N)) (start : TaskState N)
      → opened host now id scope o ≡ done start
      → start.task_id ≡ elim o [ none ↦ strip id | some s ↦ strip s.task_id ]
  unfolding opened
  opened-task_id now id scope none start h = post_init-task_id host now (blank now id scope) start h
  opened-task_id now id scope (some s) start h = elim (Result-cases (post_init host now s)) [
    | inl (e, p) ↦ absurd (ground arith)
    | inr (t, p) ↦ ground (arith, post_init-task_id host now s t p)
  ]

  -- an update under a stripped id writes the row of that id
  update-task_id :
      (c : Call N) (table table' : List (Text × TaskState N)) (t : TaskState N)
      → IsTable table
      → IsCall c
      → update host c.now c.later c.task_id c.scope c.patch table ≡ done (table', t)
      → t.task_id ≡ c.task_id
  unfolding get read_row
  update-task_id c table table' t v k h =
      let u = update-Updated host c.now c.later c.task_id c.scope c.patch table table' t h in
      let p =
        ap (λ s. s.task_id) u.result
        ∙ (patched-task_id host c.later c.patch u.sequence u.new_scope u.start).0 in
      let o = opened-task_id c.now c.task_id c.scope u.existing u.start u.begun in
      elim (Option-cases u.existing) [
        | inl e ↦ p ∙ o ∙ rw e (k.clean)
        | inr (s, e) ↦
            let (row, g, r) = get-some host c.now c.task_id table s (u.found ∙ ap done e) in
            p
            ∙ o
            ∙ rw e (
                ap strip
                  (post_init-task_id host c.now row s r ∙ ap strip (v c.task_id row g).0 ∙ k.clean)
                ∙ k.clean)
      ]

  filed-IsTable :
      (t : TaskState N) (table : List (Text × TaskState N))
      → IsTable table
      → strip t.task_id ≡ t.task_id
      → IsTable (filed t table)
  unfolding filed
  filed-IsTable t table v k id row g = elim (Bool-cases (t.task_id == id)) [
    | inl e ↦
        let p : t ≡ row = ground (arith, Dict.get-put t.task_id id t table, g) in
        let q = (text_eq_iff t.task_id id).0 e in (rw (← p) q, rw (← q) k)
    | inr e ↦ v id row (ground (arith, Dict.get-put t.task_id id t table, g))
  ]

  pub step-IsTable :
      (c : Call N) (table : List (Text × TaskState N))
      → IsTable table
      → IsCall c
      → IsTable (step c table)
  unfolding step
  step-IsTable c table v k =
      elim (Result-cases (update host c.now c.later c.task_id c.scope c.patch table)) [
        | inl (e, h) ↦ subst (λ r. IsTable (kept table r)) (sym h) v
        | inr ((table', t), h) ↦
            let u = update-Updated host c.now c.later c.task_id c.scope c.patch table table' t h in
            let p = update-task_id c table table' t v k h in
            subst (λ r. IsTable (kept table r)) (sym h)
              (subst IsTable (sym u.written)
                (filed-IsTable t table v (ap strip p ∙ k.clean ∙ sym p)))
      ]

  -- an update does not lower the number of the row that it writes
  update-grows :
      (c : Call N) (table table' : List (Text × TaskState N)) (t : TaskState N)
      → IsCall c
      → update host c.now c.later c.task_id c.scope c.patch table ≡ done (table', t)
      → stored_sequence c.task_id table ≤ pos_part t.checkpoint_sequence
  unfolding get read_row lt_ℤ
  update-grows c table table' t k h = elim (Option-cases (Dict.get c.task_id table)) [
    | inl e ↦ rw (e, stored_sequence) (omega arith)
    | inr (row, e) ↦
        let u = update-Updated host c.now c.later c.task_id c.scope c.patch table table' t h in
        elim (Result-cases (post_init host c.now row)) [
          | inl (f, q) ↦ absurd (ground (arith, u.found, e, q))
          | inr (s, q) ↦
              let g : get host c.now c.task_id table ≡ done (some s) = rw (e, q) refl in
              let (i, d, w, m) =
                update-sequence host c.now c.later c.task_id c.scope c.patch table table' s t
                  k.running g h in
              rw (e, stored_sequence) (ground (arith, m, post_init-sequence host c.now row s q))
        ]
  ]

  written-grows :
      (t : TaskState N) (id : Text) (table : List (Text × TaskState N))
      → stored_sequence t.task_id table ≤ pos_part t.checkpoint_sequence
      → stored_sequence id table ≤ stored_sequence id (filed t table)
  unfolding filed
  written-grows t id table h = elim (Bool-cases (t.task_id == id)) [
    | inl e ↦
        rw (Dict.get-put t.task_id id t table, stored_sequence)
          (rw (e) (rw (← (text_eq_iff t.task_id id).0 e) h))
    | inr e ↦ rw (Dict.get-put t.task_id id t table, stored_sequence) (rw (e) (omega arith))
  ]

  step-grows :
      (c : Call N) (id : Text) (table : List (Text × TaskState N))
      → IsTable table
      → IsCall c
      → stored_sequence id table ≤ stored_sequence id (step c table)
  unfolding step filed
  step-grows c id table v k =
      elim (Result-cases (update host c.now c.later c.task_id c.scope c.patch table)) [
        | inl (e, h) ↦
            subst (λ r. stored_sequence id table ≤ stored_sequence id (kept table r)) (sym h)
              (omega arith)
        | inr ((table', t), h) ↦
            let u = update-Updated host c.now c.later c.task_id c.scope c.patch table table' t h in
            let p = update-task_id c table table' t v k h in
            subst (λ r. stored_sequence id table ≤ stored_sequence id (kept table r)) (sym h)
              (subst (λ r. stored_sequence id table ≤ stored_sequence id r) (sym u.written)
                (written-grows t id table (rw p (update-grows c table table' t k h))))
      ]

  -- Whatever updates are called under stripped ids, with what results, no task's stored checkpoint
  -- number ever decreases.
  pub run-grows :
      (calls : List (Call N)) (id : Text) (table : List (Text × TaskState N))
      → IsTable table
      → All IsCall calls
      → stored_sequence id table ≤ stored_sequence id (run calls table)
  unfolding run
  run-grows [] id table v k = omega arith
  run-grows (c ∷ calls) id table v k = omega (
    arith,
    step-grows c id table v k.0,
    run-grows calls id (step c table) (step-IsTable c table v k.0) k.1,
  )
