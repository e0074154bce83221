-- ===== src/Agents/Tests.antt =====
-- Runs of the reviews, and the theorems about them at concrete inputs.
use agent_memory_living_memo.Prelude.{
  ℕ, suc, ◌≡◌, refl, Text, ◌==◌, false, none, some, [], ◌∷◌, Text_eq, text_eq, codes,
}
use agent_memory_living_memo.Schema.{MemoryEnvelope}
use agent_memory_living_memo.Schema.Samples.{note}
use agent_memory_living_memo.Agents.{MemoryProposal, VaultApi, Desk, get, reviewed, reject, approve}
use agent_memory_living_memo.Agents.Review.{propose, accept, run, run-decided}
use agent_memory_living_memo.Agents.Approval.{approve-once, approve-remember, IsReviewed}

-- a vault that counts what it remembers
abbrev api : VaultApi ℕ ℕ
api = record { seal = λ e. some e; remember = λ e n. (suc n, some (codes "mem")) }

abbrev pending : MemoryProposal ℕ
pending = record {
  id = codes "a";
  proposal_type = codes "lesson";
  candidate = note;
  rationale = [];
  created_by = codes "bot";
  created_at = 1;
  status = codes "pending";
  reviewed_by = none;
  reviewed_at = none;
  review_reason = none;
  memory_id = none;
}

abbrev desk : Desk ℕ ℕ
desk = record { proposals = (codes "a", pending) ∷ []; vault = 0 }

abbrev closed : MemoryProposal ℕ
closed = reviewed (codes "rejected") 2 (codes "ann") (some (codes "no")) none pending

abbrev closed_desk : Desk ℕ ℕ
closed_desk = record { proposals = (codes "a", closed) ∷ []; vault = 0 }

approved_once :
    (run api
      (accept (codes "a") 2 (codes "ann") ∷ accept (codes "a") 3 (codes "bob") ∷ [])
      desk).vault
    ≡ 1
unfolding run text_eq
approved_once = refl

run-decided_example :
    get (codes "a") (
      run api
        (propose (codes "a") 3 note [] [] [] ∷ accept (codes "a") 4 (codes "bob") ∷ [])
        closed_desk)
    ≡ some closed
unfolding get text_eq
run-decided_example =
    run-decided api (propose (codes "a") 3 note [] [] [] ∷ accept (codes "a") 4 (codes "bob") ∷ [])
      (codes "a") closed_desk closed refl refl

abbrev approved : Desk ℕ ℕ
approved = (approve api (codes "a") 2 (codes "ann") desk).0

approve-once_example :
    let t =
      run api
        (propose (codes "b") 3 note [] [] [] ∷ accept (codes "b") 4 (codes "bob") ∷ [])
        approved in
    (approve api (codes "a") 5 (codes "bob") t ≡ (t, none))
    × (reject (codes "a") 5 (codes "bob") [] t ≡ (t, false))
unfolding approve text_eq
approve-once_example =
    approve-once api (codes "a") 2 (codes "ann") (codes "mem") desk
      (propose (codes "b") 3 note [] [] [] ∷ accept (codes "b") 4 (codes "bob") ∷ []) 5
      (codes "bob") [] refl

approve-remember_example :
    (m : MemoryEnvelope ℕ) × IsReviewed api pending (codes "ann") m
    × ((approve api (codes "a") 2 (codes "ann") desk).1 ≡ some (codes "mem"))
    × ((approve api (codes "a") 2 (codes "ann") desk).0.vault ≡ 1)
    × (get (codes "a") (approve api (codes "a") 2 (codes "ann") desk).0
        ≡ some (reviewed (codes "approved") 2 (codes "ann") none (some (codes "mem")) pending))
    × ((other : Text)
        → (codes "a" == other) ≡ false
        → get other (approve api (codes "a") 2 (codes "ann") desk).0 ≡ get other desk)
unfolding get text_eq
approve-remember_example = approve-remember api (codes "a") 2 (codes "ann") desk pending refl refl
