-- ===== src/Engram/Hasher.antt =====
-- `NGramHasher`: the suffix n-gram hash of a query.
use Prim.Native.Nat.{bit_xor}
use agent_memory_living_memo.Prelude.{
  ℕ, zero, suc, ◌+◌, ◌-◌, ◌*◌, ◌%◌, ◌<◌, ◌≡◌, refl, ap, arith, nat_eq, Option, none, some, List, [],
  ◌∷◌, All, Text, if◌then◌else◌, leb, ltb, length, min, max, take, drop, replicate, ◌||◌,
}
use agent_memory_living_memo.Prelude.Strings.{split}

abbrev pub primes : List ℕ
primes = 31 ∷ 37 ∷ 41 ∷ 43 ∷ 47 ∷ 53 ∷ 59 ∷ 61 ∷ 67 ∷ 71 ∷ 73 ∷ 79 ∷ []

pub record NGramHasher : Type 0 where
  pub table_size : ℕ
  pub n_heads : ℕ
  pub ngram_orders : List ℕ

-- `none` is a ValueError. No order, or an empty list of them, stands for the orders 2 and 3.
unfoldable pub new_hasher : ℕ → ℕ → List ℕ → Option NGramHasher
new_hasher table_size n_heads ngram_orders =
    if leb table_size 0
    then none
    else if leb n_heads 0 || ltb (length primes) n_heads
    then none
    else some (record {
      table_size = table_size;
      n_heads = n_heads;
      ngram_orders = elim ngram_orders [ [] ↦ 2 ∷ 3 ∷ [] | o ∷ os ↦ o ∷ os ];
    })

-- `max` of the orders
unfoldable pub max_order : List ℕ → ℕ
max_order [] = 0
max_order (o ∷ os) = max o (max_order os)

-- `int.from_bytes(bytes, "little")`
unfoldable pub from_little : List ℕ → ℕ
from_little [] = 0
from_little (b ∷ bs) = b + 256 * from_little bs

-- `PRIMES[head]`
abbrev nth_prime : ℕ → List ℕ → ℕ
nth_prime head [] = 0
nth_prime zero (p ∷ ps) = p
nth_prime (suc head) (p ∷ ps) = nth_prime head ps

module _ (normalize : Text → Text) (token_digest : Text → List ℕ) where
  unfoldable pub tokens : Text → List Text
  unfolding split
  tokens text = split (normalize text)

  -- the loop of `_hash_ngram`, from the given index on
  unfoldable pub hash_from : NGramHasher → ℕ → ℕ → ℕ → List Text → ℕ
  unfolding from_little take
  hash_from h prime index value [] = value
  hash_from h prime index value (token ∷ rest) =
      hash_from h prime (index + 1)
        (bit_xor value ((from_little (take 8 (token_digest token)) * prime * index) % h.table_size))
        rest

  unfoldable pub hash_ngram : NGramHasher → List Text → ℕ → ℕ
  unfolding hash_from
  hash_ngram h ngram head = hash_from h (nth_prime head primes) 1 0 ngram % h.table_size

  -- `tokens[-order:]` for the order that is used, which is the whole list for order 0
  unfoldable pub suffix : NGramHasher → List Text → List Text
  unfolding max_order drop
  suffix h ts =
      let order = min (max_order h.ngram_orders) (length ts) in
      if nat_eq order 0 then ts else drop (length ts - order) ts

  unfoldable pub primary_index : NGramHasher → Text → ℕ
  unfolding tokens suffix hash_ngram
  primary_index h text = elim (tokens text) [ [] ↦ 0 | t ∷ ts ↦ hash_ngram h (suffix h (t ∷ ts)) 0 ]

  -- `[... for head in range(n)]`, from `head` on
  unfoldable pub heads_from : NGramHasher → List Text → ℕ → ℕ → List ℕ
  unfolding hash_ngram
  heads_from h ngram head zero = []
  heads_from h ngram head (suc n) = hash_ngram h ngram head ∷ heads_from h ngram (head + 1) n

  unfoldable pub all_indices : NGramHasher → Text → List ℕ
  unfolding tokens suffix heads_from
  all_indices h text = elim (tokens text) [
    | [] ↦ replicate h.n_heads 0
    | t ∷ ts ↦ heads_from h (suffix h (t ∷ ts)) 0 h.n_heads
  ]

  hash_ngram-lt :
      (h : NGramHasher) (ngram : List Text) (head : ℕ)
      → 0 < h.table_size
      → hash_ngram h ngram head < h.table_size
  unfolding hash_ngram
  hash_ngram-lt h ngram head p = omega arith

  heads_from-lt :
      (h : NGramHasher) (ngram : List Text) (head n : ℕ)
      → 0 < h.table_size
      → All (λ i. i < h.table_size) (heads_from h ngram head n)
        × (length (heads_from h ngram head n) ≡ n)
  unfolding heads_from
  heads_from-lt h ngram head zero p = (tt, refl)
  heads_from-lt h ngram head (suc n) p =
      let (below, len) = heads_from-lt h ngram (head + 1) n p in
      ((hash_ngram-lt h ngram head p, below), ap suc len)

  replicate_lt :
      (n m : ℕ) → 0 < m → All (λ i. i < m) (replicate n 0) × (length {A = ℕ} (replicate n 0) ≡ n)
  replicate_lt zero m p = (tt, refl)
  replicate_lt (suc n) m p = let (below, len) = replicate_lt n m p in ((p, below), ap suc len)

  abbrev indices_of : NGramHasher → List Text → ℕ → List ℕ
  indices_of h [] n = replicate n 0
  indices_of h (t ∷ ts) n = heads_from h (suffix h (t ∷ ts)) 0 n

  abbrev first_of_tokens : NGramHasher → List Text → ℕ
  first_of_tokens h [] = 0
  first_of_tokens h (t ∷ ts) = hash_ngram h (suffix h (t ∷ ts)) 0

  abbrev Bounded : ℕ → ℕ → ℕ → List ℕ → Type 0
  Bounded size n first indices =
      All (λ i. i < size) indices
      × (length indices ≡ n)
      × ((rest : List ℕ) × (indices ≡ first ∷ rest))

  indices_of-Bounded :
      (h : NGramHasher) (ts : List Text) (n : ℕ)
      → 0 < h.table_size
      → 0 < n
      → Bounded h.table_size n (first_of_tokens h ts) (indices_of h ts n)
  unfolding heads_from
  indices_of-Bounded h ts zero p q = absurd (omega arith)
  indices_of-Bounded h [] (suc n) p q =
      let (below, len) = replicate_lt (suc n) h.table_size p in (below, len, (replicate n 0, refl))
  indices_of-Bounded h (t ∷ ts) (suc n) p q =
      let (below, len) = heads_from-lt h (suffix h (t ∷ ts)) 0 (suc n) p in
      (below, len, (heads_from h (suffix h (t ∷ ts)) (0 + 1) n, refl))

  all_indices-of :
      (h : NGramHasher) (text : Text) → all_indices h text ≡ indices_of h (tokens text) h.n_heads
  unfolding all_indices
  all_indices-of h text =
      elim (tokens text)
        as (λ ts.
          elim ts [
            | [] ↦ replicate h.n_heads 0
            | t ∷ ts' ↦ heads_from h (suffix h (t ∷ ts')) 0 h.n_heads
          ]
          ≡ indices_of h ts h.n_heads) [ [] ↦ refl | t ∷ ts ↦ refl ]

  primary_index-of :
      (h : NGramHasher) (text : Text) → primary_index h text ≡ first_of_tokens h (tokens text)
  unfolding primary_index
  primary_index-of h text =
      elim (tokens text)
        as (λ ts.
          elim ts [ [] ↦ 0 | t ∷ ts' ↦ hash_ngram h (suffix h (t ∷ ts')) 0 ]
          ≡ first_of_tokens h ts) [ [] ↦ refl | t ∷ ts ↦ refl ]

  -- Every index that a query hashes to is a slot of the table, there is one for each head, and the
  -- first of them is the slot under which the cache files the query.
  pub indices_bounds :
      (h : NGramHasher) (text : Text)
      → 0 < h.table_size
      → 0 < h.n_heads
      → All (λ i. i < h.table_size) (all_indices h text)
        × (length (all_indices h text) ≡ h.n_heads)
        × ((rest : List ℕ) × (all_indices h text ≡ primary_index h text ∷ rest))
  indices_bounds h text p q =
      rw (all_indices-of h text, primary_index-of h text)
        (indices_of-Bounded h (tokens text) h.n_heads p q)
