-- ===== src/Agents/Review.antt =====
-- A proposal is decided once.
use agent_memory_living_memo.Prelude.{
  ◌≡◌, refl, ◌∙◌, ap, arith, false, inl, inr, Bool-cases, Option, none, some, Option-cases, List,
  [], ◌∷◌, Text, Text_eq, text_eq_iff, codes, ◌==◌, if◌then◌else◌,
}
use agent_memory_living_memo.Prelude.Dict
use agent_memory_living_memo.Schema.{MemoryEnvelope}
use agent_memory_living_memo.Agents.{
  MemoryProposal, VaultApi, Desk, get, propose_memory, review, reviewed, signed, reject,
  finish_approve, approve, remembered,
}

pub data Call (N : Type 0) : Type 0 where
  propose : Text → N → MemoryEnvelope N → Text → Text → Text → Call N
  accept : Text → N → Text → Call N
  refuse : Text → N → Text → Text → Call N

put-fresh :
    {V : Type 0} (k id : Text) (v p : V) (d : List (Text × V))
    → Dict.get k d ≡ none
    → Dict.get id d ≡ some p
    → Dict.get id (Dict.put k v d) ≡ some p
put-fresh k id v p d e g = elim (Bool-cases (k == id)) [
  | inl h ↦ absurd (ground (arith, e, g, ap (λ i. Dict.get i d) ((text_eq_iff k id).0 h)))
  | inr h ↦ Dict.get-put k id v d ∙ rw h g
]

module _ {N V : Type 0} (api : VaultApi N V) where
  unfoldable pub step : Call N → Desk N V → Desk N V
  unfolding propose_memory approve reject
  step (propose id now candidate kind rationale by) s =
      (propose_memory id now candidate kind rationale by s).0
  step (accept id now reviewer) s = (approve api id now reviewer s).0
  step (refuse id now reviewer reason) s = (reject id now reviewer reason s).0

  unfoldable pub run : List (Call N) → Desk N V → Desk N V
  unfolding step
  run [] s = s
  run (c ∷ calls) s = run calls (step c s)

  -- A review writes the row of its own proposal.
  get-review :
      (id other status : Text) (now : N) (reviewer : Text) (reason memory_id : Option Text)
      (p : MemoryProposal N) (s : Desk N V)
      → get other (review id status now reviewer reason memory_id p s) ≡ (
          if id == other
          then some (reviewed status now reviewer reason memory_id p)
          else get other s)
  unfolding get review
  get-review id other status now reviewer reason memory_id p s =
      Dict.get-put id other (reviewed status now reviewer reason memory_id p) s.proposals

  pub finish_approve-get :
      (id other : Text) (now : N) (reviewer : Text) (p : MemoryProposal N) (s : Desk N V)
      (o : V × Option Text)
      → (id == other) ≡ false
      → get other (finish_approve api id now reviewer p s o).0 ≡ get other s
  unfolding finish_approve get review
  finish_approve-get id other now reviewer p s (vault, none) h = refl
  finish_approve-get id other now reviewer p s (vault, some m) h = ground (
    arith,
    h,
    Dict.get-put id other (reviewed (codes "approved") now reviewer none (some m) p) s.proposals,
  )

  propose_memory-get :
      (k id : Text) (now : N) (candidate : MemoryEnvelope N) (kind rationale by : Text)
      (s : Desk N V) (p : MemoryProposal N)
      → get id s ≡ some p
      → get id (propose_memory k now candidate kind rationale by s).0 ≡ some p
  unfolding propose_memory get
  propose_memory-get k id now candidate kind rationale by s p g =
      elim (Option-cases (Dict.get k s.proposals)) [
        | inl e ↦ rw (e, propose_memory) (put-fresh k id _ p s.proposals e g)
        | inr (taken, e) ↦ rw (e, propose_memory) g
      ]

  approve-get :
      (k id : Text) (now : N) (reviewer : Text) (s : Desk N V) (p : MemoryProposal N)
      → get id s ≡ some p
      → (p.status == codes "pending") ≡ false
      → get id (approve api k now reviewer s).0 ≡ some p
  unfolding approve
  approve-get k id now reviewer s p g d = elim (Bool-cases (k == id)) [
    | inl e ↦ let q = (text_eq_iff k id).0 e in rw (ap (λ i. get i s) q ∙ g, d, approve) g
    | inr e ↦ elim (Option-cases (get k s)) [
      | inl f ↦ rw (f, approve) g
      | inr (r, f) ↦ elim (Bool-cases (r.status == codes "pending")) [
        | inl h ↦
            rw (f, h, approve)
              (finish_approve-get k id now reviewer r s
                  (remembered api (api.seal (signed r reviewer)) s.vault) e
                ∙ g)
        | inr h ↦ rw (f, h, approve) g
      ]
    ]
  ]

  reject-get :
      (k id : Text) (now : N) (reviewer reason : Text) (s : Desk N V) (p : MemoryProposal N)
      → get id s ≡ some p
      → (p.status == codes "pending") ≡ false
      → get id (reject k now reviewer reason s).0 ≡ some p
  unfolding reject
  reject-get k id now reviewer reason s p g d = elim (Bool-cases (k == id)) [
    | inl e ↦ let q = (text_eq_iff k id).0 e in rw (ap (λ i. get i s) q ∙ g, d, reject) g
    | inr e ↦ elim (Option-cases (get k s)) [
      | inl f ↦ rw (f, reject) g
      | inr (r, f) ↦ elim (Bool-cases (r.status == codes "pending")) [
        | inl h ↦
            rw (f, h, reject)
              (get-review k id (codes "rejected") now reviewer (some reason) none r s ∙ rw e g)
        | inr h ↦ rw (f, h, reject) g
      ]
    ]
  ]

  step-decided :
      (c : Call N) (id : Text) (s : Desk N V) (p : MemoryProposal N)
      → get id s ≡ some p
      → (p.status == codes "pending") ≡ false
      → get id (step c s) ≡ some p
  unfolding step
  step-decided (propose k now candidate kind rationale by) id s p g d =
      propose_memory-get k id now candidate kind rationale by s p g
  step-decided (accept k now reviewer) id s p g d = approve-get k id now reviewer s p g d
  step-decided (refuse k now reviewer reason) id s p g d =
      reject-get k id now reviewer reason s p g d

  -- A proposal that has been approved or rejected stays as it is, with its reviewer, its reason and
  -- its memory, whatever is proposed, approved and rejected afterwards.
  pub run-decided :
      (calls : List (Call N)) (id : Text) (s : Desk N V) (p : MemoryProposal N)
      → get id s ≡ some p
      → (p.status == codes "pending") ≡ false
      → get id (run calls s) ≡ some p
  unfolding run
  run-decided [] id s p g d = g
  run-decided (c ∷ calls) id s p g d =
      run-decided calls id (step c s) p (step-decided c id s p g d) d
