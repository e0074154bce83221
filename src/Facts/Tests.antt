-- ===== src/Facts/Tests.antt =====
-- Runs of the ledger, and the theorems about it at concrete inputs.
use agent_memory_living_memo.Prelude.{
  ℕ, ◌≡◌, refl, Option, none, some, List, [], ◌∷◌, Text, Text_eq, text_eq, codes, length,
}
use agent_memory_living_memo.Prelude.Floats.{cents, cents-IsOrder}
use agent_memory_living_memo.Schema.{Dict}
use agent_memory_living_memo.Schema.Values.{Json}
use agent_memory_living_memo.Facts.{FactRecord, FactKey, Ledger, NewFact, record_of, get, add_fact}
use agent_memory_living_memo.Facts.Rows.{row_after, get-add_fact}
use agent_memory_living_memo.Facts.Status.{IsLedger, add_fact-IsLedger}

abbrev lower : Text → Text
lower t = t

abbrev digest : FactKey ℕ → Text
digest k = k.object

abbrev scope : Dict ℕ
scope = (codes "p", Json.text (codes "x")) ∷ []

abbrev fact : Text → List Text → NewFact ℕ
fact object supersedes = record {
  subject = codes "p";
  predicate = codes "uses";
  object = object;
  source_memory_id = codes "m";
  scope = scope;
  confidence = 90;
  valid_from = none;
  valid_to = none;
  supersedes = supersedes;
  reason = [];
  created_at = 3;
}

abbrev empty : Ledger ℕ
empty = record { facts = []; conflicts = []; graph = [] }

abbrev one : Ledger ℕ
one = (add_fact cents lower digest (fact (codes "a") []) empty).0

abbrev two : Ledger ℕ
two = (add_fact cents lower digest (fact (codes "b") (codes "fact_a" ∷ [])) one).0

abbrev status_of : Option (FactRecord ℕ) → Text
status_of none = []
status_of (some r) = r.status

superseded : status_of (get cents lower digest (codes "fact_a") two) ≡ codes "superseded"
unfolding get add_fact text_eq
superseded = refl

-- a fact that is added again after it was superseded is active again, and its conflict stays
revived :
    status_of (
      get cents lower digest
        (codes "fact_a")
        (add_fact cents lower digest (fact (codes "a") []) two).0)
    ≡ codes "active"
unfolding get add_fact text_eq
revived = refl

revived_conflict : length (add_fact cents lower digest (fact (codes "a") []) two).0.conflicts ≡ 1
unfolding add_fact text_eq
revived_conflict = refl

get-add_fact_example :
    get cents lower digest
      (codes "fact_a")
      (add_fact cents lower digest (fact (codes "b") (codes "fact_a" ∷ [])) empty).0
    ≡ row_after cents lower digest
        (record_of cents lower digest (fact (codes "b") (codes "fact_a" ∷ [])))
        (codes "fact_a")
        empty
unfolding add_fact text_eq
get-add_fact_example =
    get-add_fact cents lower digest (fact (codes "b") (codes "fact_a" ∷ [])) empty
      (record_of cents lower digest (fact (codes "b") (codes "fact_a" ∷ []))) (codes "fact_a") refl

abbrev unnamed : NewFact ℕ
unnamed = fact (codes " ") []

empty-IsLedger : IsLedger cents lower digest empty
empty-IsLedger = record { each = tt; ids = tt }

one-IsLedger : IsLedger cents lower digest one
one-IsLedger =
    add_fact-IsLedger cents lower digest (fact (codes "a") []) empty cents-IsOrder empty-IsLedger

add_fact-IsLedger_example : IsLedger cents lower digest two
add_fact-IsLedger_example =
    add_fact-IsLedger cents lower digest (fact (codes "b") (codes "fact_a" ∷ [])) one cents-IsOrder
      one-IsLedger
