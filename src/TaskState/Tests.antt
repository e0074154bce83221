-- ===== src/TaskState/Tests.antt =====
-- Runs of the task store, and the theorems about it at concrete inputs.
use agent_memory_living_memo.Prelude.{
  ℕ, ◌≤◌, ◌≡◌, refl, subst, false, Option, none, some, List, [], ◌∷◌, Text, Text_eq, text_eq, codes,
  nat_eq,
}
use agent_memory_living_memo.Prelude.Dict
use agent_memory_living_memo.Prelude.Int.{ℤ, pos}
use agent_memory_living_memo.Prelude.Strings.{strip}
use agent_memory_living_memo.Prelude.Results.{raised, done, is_done}
use agent_memory_living_memo.Schema.{Dict}
use agent_memory_living_memo.Schema.Values.{Json}
use agent_memory_living_memo.TaskState.{
  post_init, patched, blank, overflows, TaskState, Failure, Host, lt_ℤ, get, requested, update,
}
use agent_memory_living_memo.TaskState.Checkpoints.{
  wanted, update-sequence, update-stale, update-is_done, update_restarts,
}
use agent_memory_living_memo.TaskState.Runs.{Call, IsTable, IsCall, stored_sequence, run, run-grows}

abbrev int_of : Json ℕ → Option ℤ
int_of (Json.num n) = some (pos n)
int_of _ = none

abbrev host : Host ℕ
host = record {
  str_of = λ v. codes "value";
  int_text = λ n. codes "n";
  int_of = int_of;
  dict_of = λ v. none;
  is_zero = nat_eq 0;
}

abbrev stored : TaskState ℕ
stored = record {
  task_id = codes "t";
  scope = [];
  objective = codes "port";
  constraints = codes "small" ∷ [];
  current_plan = [];
  open_subtasks = [];
  completed_subtasks = [];
  irreversible_decisions = [];
  tool_evidence_ids = [];
  conflict_markers = [];
  status = codes "active";
  checkpoint_id = codes "c";
  checkpoint_sequence = pos 4;
  created_at = 10;
  updated_at = 20;
}

abbrev table : List (Text × TaskState ℕ)
table = (codes "t", stored) ∷ []

abbrev asks : ℕ → Dict ℕ
asks n = (codes "checkpoint_sequence", Json.num n) ∷ (codes "status", Json.text (codes "done")) ∷ []

abbrev after : ℤ → TaskState ℕ
after n = record stored { status = codes "done"; checkpoint_sequence = n; updated_at = 31 }

found : get host 30 (codes "t") table ≡ done (some stored)
unfolding get text_eq
found = refl

accepted :
    update host 30 31 (codes "t") [] (asks 6) table
    ≡ done ((codes "t", after (pos 6)) ∷ [], after (pos 6))
unfolding update text_eq
accepted = refl

update-sequence_example :
    ((after (pos 6)).task_id ≡ stored.task_id)
    × ((after (pos 6)).created_at ≡ stored.created_at)
    × (wanted host (requested (asks 6)) (pos 4) ≡ some (pos 6))
    × (lt_ℤ (pos 6) (pos 4) ≡ false)
update-sequence_example =
    update-sequence host 30 31 (codes "t") [] (asks 6) table ((codes "t", after (pos 6)) ∷ [])
      stored (after (pos 6)) refl found accepted

update-stale_example :
    update host 30 31 (codes "t") [] (asks 3) table
    ≡ raised (Failure.stale_checkpoint (pos 3) (pos 4))
unfolding requested text_eq lt_ℤ
update-stale_example =
    update-stale host 30 31 (codes "t") [] (asks 3) table stored (Json.num 3) (pos 3) refl found
      refl refl refl

abbrev restarted : TaskState ℕ
restarted = record stored {
  objective = [];
  constraints = [];
  checkpoint_id = codes "ckpt_n";
  checkpoint_sequence = pos 1;
  created_at = 30;
  updated_at = 31;
}

-- an id with a space before it replaces the row of the task
padded : update host 30 31 (codes " t") [] [] table ≡ done ((codes "t", restarted) ∷ [], restarted)
unfolding update text_eq
padded = refl

update_restarts_example :
    (start : TaskState ℕ) × (new_scope : Dict ℕ) × (post_init host 30 (blank 30 (codes " t") [])
      ≡ done start)
    × (restarted ≡ patched host 31 [] (pos 1) new_scope start)
    × (restarted.checkpoint_sequence ≡ pos 1)
    × (restarted.task_id ≡ strip (codes " t"))
    × (Dict.get (strip (codes " t")) ((codes "t", restarted) ∷ []) ≡ some restarted)
unfolding Dict.get requested text_eq
update_restarts_example =
    update_restarts host 30 31 (codes " t") [] [] table ((codes "t", restarted) ∷ []) restarted refl
      refl padded

abbrev call : ℕ → Call ℕ
call n = record { now = 30; later = 31; task_id = codes "t"; scope = []; patch = asks n }

call-IsCall : (n : ℕ) → IsCall host (call n)
unfolding strip
call-IsCall n = record { clean = refl; running = refl }

empty-IsTable : IsTable {N = ℕ} []
unfolding Dict.get
empty-IsTable id row g = absurd (subst (λ o. elim o [ none ↦ Unit | some r ↦ ⊥ ]) g tt)

run-grows_example :
    stored_sequence {N = ℕ} (codes "t") []
    ≤ stored_sequence (codes "t") (run host (call 6 ∷ call 3 ∷ []) [])
run-grows_example =
    run-grows host (call 6 ∷ call 3 ∷ []) (codes "t") [] empty-IsTable
      (call-IsCall 6, (call-IsCall 3, tt))

-- a number that does not fit into the column
update-is_done_example :
    is_done (update host 30 31 (codes "t") [] (asks 9223372036854775808) table) ≡ false
unfolding requested text_eq lt_ℤ overflows Dict.get
update-is_done_example =
    update-is_done host 30 31 (codes "t") [] (asks 9223372036854775808) table stored refl found refl
