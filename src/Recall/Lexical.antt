-- ===== src/Recall/Lexical.antt =====
-- The score of a memory by the words of a query.
use agent_memory_living_memo.Prelude.{
  not, List, [], ◌∷◌, Text, nat_eq, filter_by, is_empty, length, if◌then◌else◌, Text_eq,
}
use agent_memory_living_memo.Prelude.Floats.{Floats, fmin}
use agent_memory_living_memo.Prelude.Strings.{join}
use agent_memory_living_memo.Schema.{MemoryEnvelope, RelationItem}
use agent_memory_living_memo.Schema.Envelope.{text_content}
use agent_memory_living_memo.Schema.Host.{Host}
use agent_memory_living_memo.Governance.{occurs_in}
use agent_memory_living_memo.Store.Search.{terms}

abbrev pub space : Text
space = 32 ∷ []

-- the names of the relations, in order
unfoldable pub relation_names : {N : Type 0} → List (RelationItem N) → List Text
relation_names [] = []
relation_names (r ∷ rs) = r.subject ∷ r.predicate ∷ r.object ∷ relation_names rs

unfoldable pub relation_text : {N : Type 0} → MemoryEnvelope N → Text
unfolding relation_names join filter_by is_empty
relation_text m = join space (filter_by (λ part. not (is_empty part)) (relation_names m.relations))

-- `sqrt` is `math.sqrt`.
module _ (F : Floats) (h : Host F.Float) (sqrt : F.Float → F.Float) where
  open F use {Float, lt, add, mul, div, of_ℕ, hundredths}

  unfoldable pub haystack : MemoryEnvelope Float → Text
  unfolding text_content relation_text join
  haystack m = h.lower (
      join space (
        text_content h m
        ∷ join space m.tags
        ∷ join space m.entities
        ∷ m.memory_type
        ∷ relation_text m
        ∷ []))

  -- `_lexical_score`
  unfoldable pub lexical_score : Text → MemoryEnvelope Float → Float
  unfolding terms haystack occurs_in filter_by is_empty fmin
  lexical_score query m =
      let words = terms h query in
      let matched = length (filter_by (λ term. occurs_in term (haystack m)) words) in
      let coverage = div (of_ℕ matched) (of_ℕ (length words)) in
      if is_empty words
      then of_ℕ 0
      else if nat_eq matched 0
      then of_ℕ 0
      else fmin F (of_ℕ 1)
          (add (mul (sqrt coverage) (hundredths 70)) (mul m.importance (hundredths 15)))
