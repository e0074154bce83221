-- ===== src/Context/Budget.antt =====
-- What is assembled fits into the budget.
use agent_memory_living_memo.Prelude.{
  ℕ, suc, ◌≡◌, ◌≤◌, ◌<◌, ◌+◌, ◌-◌, ◌*◌, ◌/◌, refl, Bool, false, inl, inr, Bool-cases, arith, List,
  [], ◌∷◌, All, Text, is_empty, length, take, length-take, leb, subst, ◌||◌,
}
use native.Mathlib.Nat.{le-div_iff_mul-le}
use agent_memory_living_memo.Prelude.Floats.{Floats}
use agent_memory_living_memo.Prelude.Results.{done, and_then-done, done_injective}
use agent_memory_living_memo.Prelude.Sort.{sort_by}
use agent_memory_living_memo.Prelude.Strings.{rstrip}
use agent_memory_living_memo.Governance.{prompt_text_for}
use agent_memory_living_memo.Lifecycle.Metadata.{Convert}
use agent_memory_living_memo.Schema.Host.{Host}
use agent_memory_living_memo.Recall.{RecallResult}
use agent_memory_living_memo.Context.{
  EvidencePacket, ContextAssembler, estimate_tokens, fit_text, total_tokens, guarded_of, packets_of,
  ranks_before, assemble,
}

length-rstrip : (s : Text) → length (rstrip s) ≤ length s
unfolding rstrip
length-rstrip [] = omega arith
length-rstrip (c ∷ s) = ground (arith, length-rstrip s)

-- a division that is rounded up
rounded_up : (n b c : ℕ) → 0 < c → n ≤ b * c → (n + c - 1) / c ≤ b
rounded_up n b c pos h = elim (Bool-cases (leb ((n + c - 1) / c) b)) [
  | inl e ↦ ground arith
  | inr e ↦
      let more : suc b * c ≤ n + c - 1 = (le-div_iff_mul-le pos).0 (ground arith) in
      absurd (omega (arith, more, h, pos))
]

module _ (a : ContextAssembler) (wide : 0 < a.chars_per_token) where
  -- A text that is cut for a budget fits into it, and its tokens are those of what is left.
  pub fit_text_lem :
      (s : Text) (budget : ℕ)
      → 0 < budget
      → is_empty (fit_text a s budget).0 ≡ false
      → ((fit_text a s budget).1 ≤ budget)
        × ((fit_text a s budget).1 ≡ estimate_tokens a (fit_text a s budget).0)
  unfolding fit_text estimate_tokens is_empty
  fit_text_lem s budget some' full =
      let c = a.chars_per_token in
      let snippet = rstrip (take (budget * c) s) in
      let short : length snippet ≤ budget * c =
        omega (arith, length-rstrip (take (budget * c) s), length-take (budget * c) s) in
      let few = rounded_up (length snippet) budget c wide short in
      elim (Bool-cases (is_empty s || leb budget 0)) [
        | inl e ↦ absurd (ground (arith, full, rw (e, fit_text) at full))
        | inr e ↦ elim (Bool-cases (leb (estimate_tokens a s) budget)) [
          | inl fits ↦ rw (e, fits, fit_text) (ground arith, refl)
          | inr long ↦ rw (e, long, fit_text) (omega (arith, few, some'), refl)
        ]
      ]

module _ (F : Floats) (h : Host F.Float) (convert : Convert F.Float) (pii_marks : Text → Bool)
    (a : ContextAssembler) where
  open F use {Float}

  -- A packet has a text, and the tokens of that text.
  pub record IsPacket (p : EvidencePacket Float) : Type 0 where
    pub full : is_empty p.snippet ≡ false
    pub counted : p.estimated_tokens ≡ estimate_tokens a p.snippet

  packets_of-IsPacket :
      (used : ℕ) (rs : List (RecallResult Float)) {ps : List (EvidencePacket Float)}
      → 0 < a.chars_per_token
      → used ≤ a.max_tokens
      → packets_of F h convert pii_marks a used rs ≡ done ps
      → (used + total_tokens ps ≤ a.max_tokens) × All IsPacket ps
  unfolding packets_of total_tokens
  packets_of-IsPacket used [] {ps} wide k e =
      subst (λ ps. (used + total_tokens ps ≤ a.max_tokens) × All IsPacket ps) (done_injective e)
        (omega (arith, k), tt)
  packets_of-IsPacket used (r ∷ rs) {ps} wide k e = elim (Bool-cases (leb a.max_tokens used)) [
    | inl spent ↦
        subst (λ ps. (used + total_tokens ps ≤ a.max_tokens) × All IsPacket ps)
          (done_injective (rw (spent, packets_of) at e)) (omega (arith, k), tt)
    | inr left ↦
        let (g, read, e1) =
          and_then-done (guarded_of F h convert r.memory) _ (rw (left, packets_of) at e) in
        let budget = a.max_tokens - used in
        let fit = fit_text a (prompt_text_for h.lower pii_marks g) budget in
        elim (Bool-cases (is_empty fit.0)) [
          | inl blank ↦ packets_of-IsPacket used rs wide k (rw blank at e1)
          | inr full ↦
              let some' : 0 < budget = ground (arith, left) in
              let (fits, same) =
                fit_text_lem a wide (prompt_text_for h.lower pii_marks g) budget some' full in
              let (later, found, made) =
                and_then-done (packets_of F h convert pii_marks a (used + fit.1) rs) _
                  (rw full at e1) in
              let (total, packets) =
                packets_of-IsPacket (used + fit.1) rs wide (omega (arith, fits, k)) found in
              subst (λ ps. (used + total_tokens ps ≤ a.max_tokens) × All IsPacket ps)
                (done_injective made)
                (omega (arith, total), (record { full = full; counted = same }, packets))
        ]
  ]

  -- If a token has at least one character and assembling raises no error, the packets have together
  -- at most the tokens of the budget, whatever the results are. Each of them has a text that is not
  -- empty, and its tokens are those of this text.
  pub assemble-IsPacket :
      (results : List (RecallResult Float)) {ps : List (EvidencePacket Float)}
      → 0 < a.chars_per_token
      → assemble F h convert pii_marks a results ≡ done ps
      → (total_tokens ps ≤ a.max_tokens) × All IsPacket ps
  unfolding assemble
  assemble-IsPacket results wide e =
      let (total, packets) =
        packets_of-IsPacket 0 (sort_by (ranks_before F h convert) results) wide (omega arith) e in
      (omega (arith, total), packets)
