-- ===== src/TaskState/Checkpoints.antt =====
-- What `update` does to the checkpoint number, and what a later `get` reads.
use agent_memory_living_memo.Prelude.{
  ◌&&◌, ℕ, ◌≡◌, refl, ap, ap₂, zero, suc, ◌∙◌, sym, arith, Bool, true, false, not, inl, inr,
  Bool-cases, Option, none, some, Option-cases, List, Text, Text_eq, codes, is_empty, if◌then◌else◌,
  ◌==◌, beq_self,
}
use agent_memory_living_memo.Prelude.Dict
use agent_memory_living_memo.Prelude.Int.{ℤ, pos, pos_part, ◌+ℤ◌}
use agent_memory_living_memo.Prelude.Strings.{strip}
use agent_memory_living_memo.Prelude.Results.{
  Result, raised, done, and_then, and_then-done, is_done, guard-done,
}
use agent_memory_living_memo.Schema.{Dict}
use agent_memory_living_memo.Schema.Values.{Json}
use agent_memory_living_memo.TaskState.{
  TaskState, Failure, Host, lt_ℤ, post_init, read_row, get, opened, requested, next_sequence,
  patch_scope, patched, blank, save, filed, overflows, is_some, update,
}
use agent_memory_living_memo.TaskState.Rows.{
  post_init_again, post_init-task_id, post_init-sequence, get-some,
}

pub done-inj : {A : Type 0} {a b : A} → Path (Result Failure A) (done a) (done b) → a ≡ b
done-inj h = ground (arith, h)

module _ {N : Type 0} (host : Host N) where
  -- the steps of an `update` that raises nothing
  pub record Updated (now later : N) (id : Text) (scope patch : Dict N)
      (table : List (Text × TaskState N)) (table' : List (Text × TaskState N)) (t : TaskState N)
      : Type 0 where
    pub existing : Option (TaskState N)
    pub start : TaskState N
    pub sequence : ℤ
    pub new_scope : Dict N
    pub found : get host now id table ≡ done existing
    pub begun : opened host now id scope existing ≡ done start
    pub counted :
        next_sequence host (is_some existing) (requested patch) start.checkpoint_sequence
        ≡ done sequence
    pub scoped : patch_scope host patch start.scope ≡ done new_scope
    pub result : t ≡ patched host later patch sequence new_scope start
    pub written : table' ≡ filed t table

  save-done :
      (s : TaskState N) (table table' : List (Text × TaskState N))
      → save s table ≡ done table'
      → table' ≡ filed s table
  unfolding save
  save-done s table table' h =
      sym (done-inj (guard-done (overflows s.checkpoint_sequence) Failure.overflow _ h).1)

  pub update-Updated :
      (now later : N) (id : Text) (scope patch : Dict N) (table table' : List (Text × TaskState N))
      (t : TaskState N)
      → update host now later id scope patch table ≡ done (table', t)
      → Updated now later id scope patch table table' t
  unfolding update
  update-Updated now later id scope patch table table' t h =
      let (existing, e1, h1) = and_then-done (get host now id table) _ h in
      let (start, e2, h2) = and_then-done (opened host now id scope existing) _ h1 in
      let (sequence, e3, h3) =
        and_then-done
          (next_sequence host (is_some existing) (requested patch) start.checkpoint_sequence) _
          h2 in
      let (new_scope, e4, h4) = and_then-done (patch_scope host patch start.scope) _ h3 in
      let state = patched host later patch sequence new_scope start in
      let (saved, e, h5) = and_then-done (save state table) _ h4 in
      let e5 = done-inj h5 in
      record {
        existing = existing;
        start = start;
        sequence = sequence;
        new_scope = new_scope;
        found = e1;
        begun = e2;
        counted = e3;
        scoped = e4;
        result = sym (ap (λ p. p.1) e5);
        written =
            sym (ap (λ p. p.0) e5)
            ∙ save-done state table saved e
            ∙ ap (λ u. filed u table) (ap (λ p. p.1) e5);
      }

  pub patched-task_id :
      (later : N) (patch : Dict N) (n : ℤ) (scope : Dict N) (s : TaskState N)
      → ((patched host later patch n scope s).task_id ≡ s.task_id)
        × ((patched host later patch n scope s).checkpoint_sequence ≡ n)
        × ((patched host later patch n scope s).created_at ≡ s.created_at)
  unfolding patched
  patched-task_id later patch n scope s = (refl, refl, refl)

  -- The state that `update` starts from is the one that was found, but for its scope.
  opened-some :
      (now : N) (id : Text) (scope : Dict N) (s start : TaskState N)
      → post_init host now s ≡ done s
      → opened host now id scope (some s) ≡ done start
      → (start.task_id ≡ s.task_id)
        × (start.checkpoint_sequence ≡ s.checkpoint_sequence)
        × (start.created_at ≡ s.created_at)
  unfolding opened
  opened-some now id scope s start again h = ground (arith, again, h)

  -- After an update the task's row reads back as the state that was returned, once its constructor
  -- has seen it, and every other row is as it was.
  pub get-update :
      (now later after : N) (id other : Text) (scope patch : Dict N)
      (table table' : List (Text × TaskState N)) (t : TaskState N)
      → update host now later id scope patch table ≡ done (table', t)
      → get host after other table'
        ≡ (if t.task_id == other then read_row host after (some t) else get host after other table)
  unfolding get filed
  get-update now later after id other scope patch table table' t h =
      let u = update-Updated now later id scope patch table table' t h in
      rw (u.written) (ground (arith, Dict.get-put t.task_id other t table))

  -- the number that a patch asks for: its own, or the one after the current
  abbrev pub wanted : Option (Json N) → ℤ → Option ℤ
  wanted none current = some (current +ℤ pos 1)
  wanted (some v) current = host.int_of v

  -- a number is refused when there is none, or it is smaller than the current one or too large
  abbrev pub allowed : Option ℤ → ℤ → Bool
  allowed none current = false
  allowed (some r) current = not (lt_ℤ r current) && not (overflows r)

  -- whether the number of a call that does not raise can be saved
  abbrev pub fits : Result Failure ℤ → Bool
  fits (raised e) = false
  fits (done n) = not (overflows n)

  next_sequence-done :
      (o : Option (Json N)) (n : ℕ) (r : ℤ)
      → next_sequence host true o (pos n) ≡ done r
      → (wanted o (pos n) ≡ some r) × (lt_ℤ r (pos n) ≡ false)
  unfolding next_sequence lt_ℤ ◌+ℤ◌
  next_sequence-done none zero r h = ground arith
  next_sequence-done none (suc n) r h = ground arith
  next_sequence-done (some v) n r h = elim (Option-cases (host.int_of v)) [
    | inl e ↦ absurd (ground arith)
    | inr (q, e) ↦ ground arith
  ]

  found-again :
      (now : N) (id : Text) (table : List (Text × TaskState N)) (s : TaskState N)
      → host.is_zero now ≡ false
      → get host now id table ≡ done (some s)
      → post_init host now s ≡ done s
  found-again now id table s z h =
      let (row, e, r) = get-some host now id table s h in post_init_again host now now row s z r

  found-sequence :
      (now : N) (id : Text) (table : List (Text × TaskState N)) (s : TaskState N)
      → get host now id table ≡ done (some s)
      → s.checkpoint_sequence ≡ pos (pos_part s.checkpoint_sequence)
  found-sequence now id table s h =
      let (row, e, r) = get-some host now id table s h in
      let q = post_init-sequence host now row s r in q ∙ ap (λ n. pos n) (sym (ap pos_part q))

  -- An update of a task that is stored keeps its id and creation time, and moves its checkpoint
  -- number to the one that the patch requests, or on by one when it requests none; the number never
  -- goes back.
  pub update-sequence :
      (now later : N) (id : Text) (scope patch : Dict N) (table table' : List (Text × TaskState N))
      (s t : TaskState N)
      → host.is_zero now ≡ false
      → get host now id table ≡ done (some s)
      → update host now later id scope patch table ≡ done (table', t)
      → (t.task_id ≡ s.task_id)
        × (t.created_at ≡ s.created_at)
        × (wanted (requested patch) s.checkpoint_sequence ≡ some t.checkpoint_sequence)
        × (lt_ℤ t.checkpoint_sequence s.checkpoint_sequence ≡ false)
  update-sequence now later id scope patch table table' s t z f h =
      let u = update-Updated now later id scope patch table table' t h in
      let e : u.existing ≡ some s = done-inj (sym u.found ∙ f) in
      let n = pos_part s.checkpoint_sequence in
      let (i, q, c) =
        opened-some now id scope s u.start (found-again now id table s z f)
          (ap (opened host now id scope) (sym e) ∙ u.begun) in
      let p = found-sequence now id table s f in
      let (w, m) = next_sequence-done (requested patch) n u.sequence (
        ap₂ (λ o k. next_sequence host (is_some o) (requested patch) k) (sym e) (sym (q ∙ p))
        ∙ u.counted) in
      let (i', q', c') = patched-task_id later patch u.sequence u.new_scope u.start in
      rw (u.result)
        (i' ∙ i, c' ∙ c, ap (wanted (requested patch)) p ∙ w ∙ ap some (sym q'), ap₂ lt_ℤ q' p ∙ m)

  update_of-found :
      (now later : N) (id : Text) (scope patch : Dict N) (table : List (Text × TaskState N))
      (s : TaskState N)
      → get host now id table ≡ done (some s)
      → update host now later id scope patch table
        ≡ and_then (opened host now id scope (some s)) (λ start.
          and_then
            (next_sequence host true (requested patch) start.checkpoint_sequence)
            (λ sequence. and_then (patch_scope host patch start.scope) (λ new_scope.
              let state = patched host later patch sequence new_scope start in
              and_then (save state table) (λ table'. done (table', state)))))
  unfolding update
  update_of-found now later id scope patch table s f = rw f refl

  opened_of-found :
      (now : N) (id : Text) (scope : Dict N) (s : TaskState N)
      → post_init host now s ≡ done s
      → (start : TaskState N) × (opened host now id scope (some s) ≡ done start)
        × (start.checkpoint_sequence ≡ s.checkpoint_sequence)
  unfolding opened
  opened_of-found now id scope s again = elim (Bool-cases (is_empty scope)) [
    | inl e ↦ (s, rw (again, e) refl, refl)
    | inr e ↦ (record s { scope = scope }, rw (again, e) refl, refl)
  ]

  next_sequence_stale :
      (v : Json N) (r current : ℤ)
      → host.int_of v ≡ some r
      → lt_ℤ r current ≡ true
      → next_sequence host true (some v) current ≡ raised (Failure.stale_checkpoint r current)
  unfolding next_sequence
  next_sequence_stale v r current i l = rw (i, l, next_sequence) refl

  next_sequence-none :
      (n : ℕ)
      → (next_sequence host true none (pos n) ≡ done (pos n +ℤ pos 1))
        × (lt_ℤ (pos n +ℤ pos 1) (pos n) ≡ false)
  unfolding next_sequence lt_ℤ ◌+ℤ◌
  next_sequence-none zero = (ground arith, ground arith)
  next_sequence-none (suc n) = (ground arith, ground arith)

  next_sequence-fits :
      (o : Option (Json N)) (n : ℕ)
      → fits (next_sequence host true o (pos n)) ≡ allowed (wanted o (pos n)) (pos n)
  unfolding next_sequence
  next_sequence-fits none n =
      let (next, on) = next_sequence-none n in
      ap fits next ∙ ap (λ b. not b && not (overflows (pos n +ℤ pos 1))) {x = false} (sym on)
  next_sequence-fits (some v) n = elim (Option-cases (host.int_of v)) [
    | inl e ↦ rw (e, next_sequence) refl
    | inr (r, e) ↦ elim (Bool-cases (lt_ℤ r (pos n))) [
      | inl l ↦ rw (e, l, next_sequence) refl
      | inr l ↦ rw (e, l, next_sequence) refl
    ]
  ]

  rest-is_done :
      (later : N) (patch : Dict N) (start : TaskState N) (table : List (Text × TaskState N))
      (r : Result Failure ℤ)
      → Dict.get (codes "scope") patch ≡ none
      → is_done {A = List (Text × TaskState N) × TaskState N} (
          and_then r (λ sequence. and_then (patch_scope host patch start.scope) (λ new_scope.
            let state = patched host later patch sequence new_scope start in
            and_then (save state table) (λ table'. done (table', state)))))
        ≡ fits r
  unfolding patch_scope save patched
  rest-is_done later patch start table (raised e) q = refl
  rest-is_done later patch start table (done n) q = elim (Bool-cases (overflows n)) [
    | inl e ↦ rw (q, patch_scope) (rw (e, save) refl)
    | inr e ↦ rw (q, patch_scope) (rw (e, save) refl)
  ]

  -- An update of a stored task that requests a smaller checkpoint number than the stored one raises
  -- the error of a stale checkpoint, with both numbers.
  pub update-stale :
      (now later : N) (id : Text) (scope patch : Dict N) (table : List (Text × TaskState N))
      (s : TaskState N) (v : Json N) (r : ℤ)
      → host.is_zero now ≡ false
      → get host now id table ≡ done (some s)
      → requested patch ≡ some v
      → host.int_of v ≡ some r
      → lt_ℤ r s.checkpoint_sequence ≡ true
      → update host now later id scope patch table
        ≡ raised (Failure.stale_checkpoint r s.checkpoint_sequence)
  update-stale now later id scope patch table s v r z f q i l =
      let (start, o, e) = opened_of-found now id scope s (found-again now id table s z f) in
      update_of-found now later id scope patch table s f
      ∙ rw (o, q) (rw (e) (rw (next_sequence_stale v r s.checkpoint_sequence i l) refl))

  -- An update of a stored task whose patch names no scope is refused exactly when the number that it
  -- asks for, which is the next one if it requests none, is no integer, is smaller than the stored
  -- one, or does not fit into the 64 bits of the database's column.
  pub update-is_done :
      (now later : N) (id : Text) (scope patch : Dict N) (table : List (Text × TaskState N))
      (s : TaskState N)
      → host.is_zero now ≡ false
      → get host now id table ≡ done (some s)
      → Dict.get (codes "scope") patch ≡ none
      → is_done (update host now later id scope patch table)
        ≡ allowed (wanted (requested patch) s.checkpoint_sequence) s.checkpoint_sequence
  update-is_done now later id scope patch table s z f q =
      let (start, o, e) = opened_of-found now id scope s (found-again now id table s z f) in
      let p = e ∙ found-sequence now id table s f in
      ap is_done (update_of-found now later id scope patch table s f)
      ∙ rw o (
          rest-is_done later patch start table
            (next_sequence host true (requested patch) start.checkpoint_sequence) q)
      ∙ ap (λ k. fits (next_sequence host true (requested patch) k)) p
      ∙ next_sequence-fits (requested patch) (pos_part s.checkpoint_sequence)
      ∙ ap (λ k. allowed (wanted (requested patch) k) k) (sym (found-sequence now id table s f))

  first_sequence : next_sequence host false none (pos 0) ≡ done (pos 1)
  unfolding next_sequence lt_ℤ ◌+ℤ◌
  first_sequence = refl

  -- `get` looks a task up under the id as it is written, and a state is filed under its stripped id.
  -- So an update under an id that is not filed, which requests no number and raises nothing, patches
  -- a new state, whatever is filed under the stripped id: the state that the constructor makes of the
  -- id, the scope and empty fields. The result is checkpoint 1, has the stripped id, and takes the
  -- place of what was filed under it.
  pub update_restarts :
      (now later : N) (id : Text) (scope patch : Dict N) (table table' : List (Text × TaskState N))
      (t : TaskState N)
      → Dict.get id table ≡ none
      → requested patch ≡ none
      → update host now later id scope patch table ≡ done (table', t)
      → (start : TaskState N) × (new_scope : Dict N) × (post_init host now (blank now id scope)
          ≡ done start)
        × (t ≡ patched host later patch (pos 1) new_scope start)
        × (t.checkpoint_sequence ≡ pos 1)
        × (t.task_id ≡ strip id)
        × (Dict.get (strip id) table' ≡ some t)
  unfolding get read_row opened filed
  update_restarts now later id scope patch table table' t g q h =
      let u = update-Updated now later id scope patch table table' t h in
      let e : u.existing ≡ none = done-inj (sym u.found ∙ rw (g) refl) in
      let b : post_init host now (blank now id scope) ≡ done u.start =
        ap (opened host now id scope) (sym e) ∙ u.begun in
      let c : next_sequence host false none (pos 0) ≡ done u.sequence =
        ap (λ o. next_sequence host false o (pos 0)) (sym q)
        ∙ ap₂ (λ o k. next_sequence host (is_some o) (requested patch) k) (sym e)
            (sym (post_init-sequence host now (blank now id scope) u.start b))
        ∙ u.counted in
      let (i', q', c') = patched-task_id later patch u.sequence u.new_scope u.start in
      let filed =
        ap (λ s. s.task_id) u.result
        ∙ i'
        ∙ post_init-task_id host now (blank now id scope) u.start b in
      let first : u.sequence ≡ pos 1 = done-inj (sym c ∙ first_sequence) in
      (
        u.start,
        u.new_scope,
        b,
        u.result ∙ ap (λ n. patched host later patch n u.new_scope u.start) first,
        ap (λ s. s.checkpoint_sequence) u.result ∙ q' ∙ first,
        filed,
        ap (Dict.get (strip id)) u.written
            ∙ ground (arith, Dict.get-put t.task_id (strip id) t table, filed, beq_self (strip id)),
      )
