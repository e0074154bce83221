-- ===== src/Agents.antt =====
-- agents.py: memories that agents propose, which a reviewer approves or rejects. An approved
-- proposal is remembered by a vault, which is an interface here. A row's JSON text is the envelope
-- that it decodes to.
pub mod Review
pub mod Approval
mod Tests
use agent_memory_living_memo.Prelude.{
  ℕ, Bool, true, false, not, Option, none, some, List, [], ◌∷◌, Text, Text_eq, codes, ◌==◌,
  if◌then◌else◌,
}
use agent_memory_living_memo.Prelude.Dict
use agent_memory_living_memo.Schema.{Dict, MemoryEnvelope}
use agent_memory_living_memo.Schema.Values.{Json}

pub record MemoryProposal (N : Type 0) : Type 0 where
  pub id : Text
  pub proposal_type : Text
  pub candidate : MemoryEnvelope N
  pub rationale : Text
  pub created_by : Text
  pub created_at : N
  pub status : Text
  pub reviewed_by : Option Text
  pub reviewed_at : Option N
  pub review_reason : Option Text
  pub memory_id : Option Text

-- What the proposals need of a vault: `MemoryEnvelope.from_dict`, which seals an envelope with its
-- content hash or, for `none`, raises, and `remember`, which gives the id of the memory or, for
-- `none`, raises, with the vault that it leaves behind.
pub record VaultApi (N V : Type 0) : Type 0 where
  pub seal : MemoryEnvelope N → Option (MemoryEnvelope N)
  pub remember : MemoryEnvelope N → V → V × Option Text

-- the table of proposals by their id, and the vault
pub record Desk (N V : Type 0) : Type 0 where
  pub proposals : List (Text × MemoryProposal N)
  pub vault : V

module _ {N : Type 0} where
  abbrev pub reviewed :
      Text → N → Text → Option Text → Option Text → MemoryProposal N → MemoryProposal N
  reviewed status now reviewer reason memory_id p = record p {
    status = status;
    reviewed_by = some reviewer;
    reviewed_at = some now;
    review_reason = reason;
    memory_id = memory_id;
  }

  -- The candidate with its provenance completed and no content hash.
  unfoldable pub signed : MemoryProposal N → Text → MemoryEnvelope N
  unfolding Dict.put
  signed p reviewer =
      let put : Text → Text → Dict N → Dict N = λ key value d. Dict.put key (Json.text value) d in
      record p.candidate {
        provenance = put (codes "approved_by") reviewer (
            put (codes "proposed_by") p.created_by (
              put (codes "proposal_type") p.proposal_type
                (put (codes "proposal_id") p.id p.candidate.provenance)));
        content_hash = [];
      }

module _ {N V : Type 0} where
  -- The row of an id; that `from_dict` may raise on a row is left out.
  unfoldable pub get : Text → Desk N V → Option (MemoryProposal N)
  unfolding Dict.get
  get proposal_id s = Dict.get proposal_id s.proposals

  -- `proposal_id` is the id that `uuid4` gives, and `none` the error of an id that is taken. That
  -- `json.dumps` refuses a candidate with bytes is left out.
  unfoldable pub propose_memory :
      Text
      → N
      → MemoryEnvelope N
      → Text
      → Text
      → Text
      → Desk N V
      → Desk N V × Option (MemoryProposal N)
  unfolding Dict.get Dict.put
  propose_memory proposal_id now candidate proposal_type rationale created_by s =
      let proposal : MemoryProposal N = record {
        id = proposal_id;
        proposal_type = proposal_type;
        candidate = candidate;
        rationale = rationale;
        created_by = created_by;
        created_at = now;
        status = codes "pending";
        reviewed_by = none;
        reviewed_at = none;
        review_reason = none;
        memory_id = none;
      } in
      elim (Dict.get proposal_id s.proposals) [
        | some taken ↦ (s, none)
        | none ↦ (record s { proposals = Dict.put proposal_id proposal s.proposals }, some proposal)
      ]

  -- The UPDATE of `_review`, on the row that was read.
  unfoldable pub review :
      Text → Text → N → Text → Option Text → Option Text → MemoryProposal N → Desk N V → Desk N V
  unfolding Dict.put
  review proposal_id status now reviewer reason memory_id p s = record s {
    proposals = Dict.put proposal_id (reviewed status now reviewer reason memory_id p) s.proposals;
  }

  -- The desk after the call, and whether it returned; else it raised an error.
  unfoldable pub reject : Text → N → Text → Text → Desk N V → Desk N V × Bool
  unfolding get review
  reject proposal_id now reviewer reason s = elim (get proposal_id s) [
    | none ↦ (s, false)
    | some p ↦
        if p.status == codes "pending"
        then (review proposal_id (codes "rejected") now reviewer (some reason) none p s, true)
        else (s, false)
  ]

  module _ (api : VaultApi N V) where
    -- The rest of `approve`, after `remember`.
    unfoldable pub finish_approve :
        Text → N → Text → MemoryProposal N → Desk N V → V × Option Text → Desk N V × Option Text
    unfolding review
    finish_approve proposal_id now reviewer p s (vault, none) = (record s { vault = vault }, none)
    finish_approve proposal_id now reviewer p s (vault, some memory_id) = (
      review proposal_id (codes "approved") now reviewer none (some memory_id) p
          (record s { vault = vault }),
      some memory_id,
    )

    -- what `from_dict` and `remember` do to a vault
    abbrev pub remembered : Option (MemoryEnvelope N) → V → V × Option Text
    remembered none vault = (vault, none)
    remembered (some m) vault = api.remember m vault

    -- The desk after the call, and the memory's id; `none` is an error.
    unfoldable pub approve : Text → N → Text → Desk N V → Desk N V × Option Text
    unfolding get signed finish_approve
    approve proposal_id now reviewer s = elim (get proposal_id s) [
      | none ↦ (s, none)
      | some p ↦
          if p.status == codes "pending"
          then finish_approve proposal_id now reviewer p s
              (remembered (api.seal (signed p reviewer)) s.vault)
          else (s, none)
    ]
