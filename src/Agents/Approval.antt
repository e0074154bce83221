-- ===== src/Agents/Approval.antt =====
-- What an approval does, and that a proposal is remembered once.
use agent_memory_living_memo.Prelude.{
  ◌≡◌, refl, ◌∙◌, ap, sym, contains, arith, text_eq, true, false, inl, inr, Bool-cases, Option,
  none, some, Option-cases, List, [], Text, Text_eq, codes, ◌==◌, beq_self,
}
use agent_memory_living_memo.Prelude.Dict
use agent_memory_living_memo.Schema.{MemoryEnvelope}
use agent_memory_living_memo.Schema.Values.{Json}
use agent_memory_living_memo.Agents.{
  MemoryProposal, VaultApi, Desk, get, review, reviewed, signed, reject, finish_approve, approve,
  remembered,
}
use agent_memory_living_memo.Agents.Review.{Call, run, run-decided, finish_approve-get}

get-put-other :
    {V : Type 0} (k id : Text) (v : V) (d : List (Text × V))
    → (k == id) ≡ false
    → Dict.get id (Dict.put k v d) ≡ Dict.get id d
get-put-other k id v d h = Dict.get-put k id v d ∙ rw h refl

module _ {N V : Type 0} (api : VaultApi N V) where
  -- the row of a proposal after an approval that ends with a memory's id or an error
  abbrev pub row_after : N → Text → Option Text → MemoryProposal N → MemoryProposal N
  row_after now reviewer none p = p
  row_after now reviewer (some memory_id) p =
      reviewed (codes "approved") now reviewer none (some memory_id) p

  finish_approve-own :
      (id : Text) (now : N) (reviewer : Text) (p : MemoryProposal N) (s : Desk N V)
      (o : V × Option Text)
      → get id s ≡ some p
      → ((finish_approve api id now reviewer p s o).1 ≡ o.1)
        × ((finish_approve api id now reviewer p s o).0.vault ≡ o.0)
        × (get id (finish_approve api id now reviewer p s o).0
            ≡ some (row_after now reviewer o.1 p))
  unfolding finish_approve review get
  finish_approve-own id now reviewer p s (vault, none) g = (refl, refl, g)
  finish_approve-own id now reviewer p s (vault, some m) g = (
    refl,
    refl,
    Dict.get-put id id (reviewed (codes "approved") now reviewer none (some m) p) s.proposals
        ∙ rw (beq_self id) refl,
  )

  decided_refused :
      (id : Text) (now : N) (reviewer reason : Text) (s : Desk N V) (p : MemoryProposal N)
      → get id s ≡ some p
      → (p.status == codes "pending") ≡ false
      → (approve api id now reviewer s ≡ (s, none)) × (reject id now reviewer reason s ≡ (s, false))
  unfolding approve reject
  decided_refused id now reviewer reason s p g d = rw (g, d, approve, reject) (refl, refl)

  -- What the candidate says of its review: who proposed it, what for, in which proposal, and who
  -- approved it. All else that it says of its origin is as proposed, and so are its id, its scope and
  -- its items; its hash is left to be computed.
  pub record IsReviewed (p : MemoryProposal N) (reviewer : Text) (m : MemoryEnvelope N)
      : Type 0 where
    pub approved_by : Dict.get (codes "approved_by") m.provenance ≡ some (Json.text reviewer)
    pub proposed_by : Dict.get (codes "proposed_by") m.provenance ≡ some (Json.text p.created_by)
    pub proposal_type :
        Dict.get (codes "proposal_type") m.provenance ≡ some (Json.text p.proposal_type)
    pub proposal_id : Dict.get (codes "proposal_id") m.provenance ≡ some (Json.text p.id)
    pub others :
        (key : Text)
        → (codes "approved_by" == key) ≡ false
        → (codes "proposed_by" == key) ≡ false
        → (codes "proposal_type" == key) ≡ false
        → (codes "proposal_id" == key) ≡ false
        → Dict.get key m.provenance ≡ Dict.get key p.candidate.provenance
    pub same :
        record m { provenance = p.candidate.provenance; content_hash = p.candidate.content_hash }
        ≡ p.candidate
    pub unsealed : m.content_hash ≡ []

  signed-IsReviewed :
      (p : MemoryProposal N) (reviewer : Text) → IsReviewed p reviewer (signed p reviewer)
  unfolding signed contains text_eq
  signed-IsReviewed p reviewer =
      let d = p.candidate.provenance in
      let d₁ = Dict.put (codes "proposal_id") (Json.text p.id) d in
      let d₂ = Dict.put (codes "proposal_type") (Json.text p.proposal_type) d₁ in
      let d₃ = Dict.put (codes "proposed_by") (Json.text p.created_by) d₂ in
      let written : Text → Json N = Json.text in
      let last = λ (key : Text). Dict.get-put (codes "approved_by") key (written reviewer) d₃ in
      let third =
        λ (key : Text). Dict.get-put (codes "proposed_by") key (written p.created_by) d₂ in
      let second =
        λ (key : Text). Dict.get-put (codes "proposal_type") key (written p.proposal_type) d₁ in
      let first = λ (key : Text). Dict.get-put (codes "proposal_id") key (written p.id) d in
      record {
        approved_by = last (codes "approved_by");
        proposed_by = last (codes "proposed_by") ∙ third (codes "proposed_by");
        proposal_type =
            last (codes "proposal_type")
            ∙ third (codes "proposal_type")
            ∙ second (codes "proposal_type");
        proposal_id =
            last (codes "proposal_id")
            ∙ third (codes "proposal_id")
            ∙ second (codes "proposal_id")
            ∙ first (codes "proposal_id");
        others = λ key e₁ e₂ e₃ e₄.
            get-put-other (codes "approved_by") key (written reviewer) d₃ e₁
            ∙ get-put-other (codes "proposed_by") key (written p.created_by) d₂ e₂
            ∙ get-put-other (codes "proposal_type") key (written p.proposal_type) d₁ e₃
            ∙ get-put-other (codes "proposal_id") key (written p.id) d e₄;
        same = refl;
        unsealed = refl;
      }

  -- Approving a pending proposal hands its candidate, with the review in its provenance, to
  -- `from_dict`, and what that gives to the vault once. The vault is then as `remember` leaves it,
  -- and the call returns what `remember` returns or raises. If it returns an id, the proposal is
  -- filed as approved with this id; if anything raises, it stays as it was. All other proposals stay.
  pub approve-remember :
      (id : Text) (now : N) (reviewer : Text) (s : Desk N V) (p : MemoryProposal N)
      → get id s ≡ some p
      → (p.status == codes "pending") ≡ true
      → (m : MemoryEnvelope N) × IsReviewed p reviewer m
        × ((approve api id now reviewer s).1 ≡ (remembered api (api.seal m) s.vault).1)
        × ((approve api id now reviewer s).0.vault ≡ (remembered api (api.seal m) s.vault).0)
        × (get id (approve api id now reviewer s).0
            ≡ some (row_after now reviewer (remembered api (api.seal m) s.vault).1 p))
        × ((other : Text)
            → (id == other) ≡ false
            → get other (approve api id now reviewer s).0 ≡ get other s)
  unfolding approve
  approve-remember id now reviewer s p g d =
      let o = remembered api (api.seal (signed p reviewer)) s.vault in
      let (returned, vault, row) = finish_approve-own id now reviewer p s o g in
      (
        signed p reviewer,
        signed-IsReviewed p reviewer,
        rw (g, d, approve) returned,
        rw (g, d, approve) vault,
        rw (g, d, approve) row,
        λ other e. rw (g, d, approve) (finish_approve-get api id other now reviewer p s o e),
      )

  approved-decided :
      (id : Text) (now : N) (reviewer memory_id : Text) (s : Desk N V)
      → (approve api id now reviewer s).1 ≡ some memory_id
      → (p : MemoryProposal N) × (get id (approve api id now reviewer s).0 ≡ some p)
        × ((p.status == codes "pending") ≡ false)
  unfolding approve text_eq
  approved-decided id now reviewer memory_id s h = elim (Option-cases (get id s)) [
    | inl f ↦ absurd (ground (arith, rw (f, approve) at h))
    | inr (p, f) ↦ elim (Bool-cases (p.status == codes "pending")) [
      | inl d ↦
          let o = remembered api (api.seal (signed p reviewer)) s.vault in
          let (returned, vault, row) = finish_approve-own id now reviewer p s o f in
          let e : o.1 ≡ some memory_id = sym returned ∙ (rw (f, d, approve) at h) in
          (
            reviewed (codes "approved") now reviewer none (some memory_id) p,
            rw (f, d, approve) (row ∙ ap (λ x. some (row_after now reviewer x p)) e),
            refl,
          )
      | inr d ↦ absurd (ground (arith, rw (f, d, approve) at h))
    ]
  ]

  -- A proposal that was approved, with a memory's id returned, is remembered only once: whatever is
  -- proposed, approved and rejected afterwards, approving it again or rejecting it raises, and leaves
  -- the proposals and the vault as they are then.
  pub approve-once :
      (id : Text) (now : N) (reviewer memory_id : Text) (s : Desk N V) (calls : List (Call N))
      (later : N) (other reason : Text)
      → (approve api id now reviewer s).1 ≡ some memory_id
      → let t = run api calls (approve api id now reviewer s).0 in
        (approve api id later other t ≡ (t, none)) × (reject id later other reason t ≡ (t, false))
  approve-once id now reviewer memory_id s calls later other reason h =
      let (p, row, decided) = approved-decided id now reviewer memory_id s h in
      let t = run api calls (approve api id now reviewer s).0 in
      decided_refused id later other reason t p
        (run-decided api calls id (approve api id now reviewer s).0 p row decided) decided
