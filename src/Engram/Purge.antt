-- ===== src/Engram/Purge.antt =====
-- `invalidate_memory`: a memory that is gone is taken out of every entry, and entries and buckets
-- that are left empty go too.
use agent_memory_living_memo.Prelude.{
  ℕ, ◌+◌, ◌≡◌, refl, sym, ap, ◌∙◌, arith, true, false, not, inl, inr, Bool-cases, Option, none,
  some, Option-cases, List, [], ◌∷◌, All, Text, Text_eq, ℕ_eq, nat_eq_iff, text_eq_iff, ◌==◌,
  contains, contains-filter_by, contains-take, Distinct, if◌then◌else◌, is_empty, filter_by,
  filter_by-Distinct, length-filter_by-le, beq_self,
}
use agent_memory_living_memo.Prelude.Dict
use agent_memory_living_memo.Engram.{
  EngramEntry, EngramCache, Query, Host, strip_entry, without, purge_bucket, purge,
  invalidate_memory, bucket_at, lookup, signature, slot,
}
use agent_memory_living_memo.Engram.Buckets.{signatures, ids_at, ids_at-none_iff-absent}
use agent_memory_living_memo.Engram.Invariant.{IsEntry, IsBucket, IsValid}
use agent_memory_living_memo.Engram.Recall.{view, shown, lookup-view}

without-eq_self : (m : Text) (ids : List Text) → contains ids m ≡ false → without m ids ≡ ids
unfolding filter_by contains
without-eq_self m [] h = refl
without-eq_self m (x ∷ ids) h = ground (arith, without-eq_self m ids)

-- what is left of the ids of a signature
pub left : Text → Option (List Text) → Option (List Text)
left m none = none
left m (some ids) = let kept = without m ids in if is_empty kept then none else some kept

module _ {N : Type 0} where
  strip-ids : (m : Text) (e : EngramEntry N) → (strip_entry m e).memory_ids ≡ without m e.memory_ids
  unfolding strip_entry
  strip-ids m e = ground (arith, without-eq_self m e.memory_ids)

  strip-signature : (m : Text) (e : EngramEntry N) → (strip_entry m e).signature ≡ e.signature
  unfolding strip_entry
  strip-signature m e = ground arith

  strip-IsEntry :
      (max : ℕ) (m : Text) (e : EngramEntry N)
      → IsEntry max e
      → is_empty (strip_entry m e).memory_ids ≡ false
      → IsEntry max (strip_entry m e)
  strip-IsEntry max m e v h = record {
    some_id = h;
    bounded =
        rw strip-ids
          (omega (arith, length-filter_by-le (λ item. not (item == m)) e.memory_ids, v.bounded));
    once = rw strip-ids (filter_by-Distinct (λ item. not (item == m)) e.memory_ids v.once);
  }

  contains-purge_bucket :
      (m s : Text) (b : List (EngramEntry N))
      → contains (signatures b) s ≡ false
      → contains (signatures (purge_bucket m b).0) s ≡ false
  unfolding purge_bucket contains
  contains-purge_bucket m s [] h = refl
  contains-purge_bucket m s (e ∷ b) h =
      ground (arith, contains-purge_bucket m s b, strip-signature m e)

  purge_bucket-IsBucket :
      (max : ℕ) (m : Text) (b : List (EngramEntry N))
      → IsBucket max b
      → IsBucket max (purge_bucket m b).0
  unfolding purge_bucket
  purge_bucket-IsBucket max m [] v = record { each = tt; apart = tt }
  purge_bucket-IsBucket max m (e ∷ b) v =
      let ih = purge_bucket-IsBucket max m b (record { each = v.each.1; apart = v.apart.1 }) in
      elim (Bool-cases (is_empty (strip_entry m e).memory_ids)) [
        | inl h ↦ rw (h, purge_bucket) ih
        | inr h ↦
            rw (h, purge_bucket)
              (record {
                each = (strip-IsEntry max m e v.each.0 h, ih.each);
                apart = (
                  rw (strip-signature m e) (contains-purge_bucket m e.signature b v.apart.0),
                  ih.apart,
                );
              })
      ]

  ids_at-purge_bucket :
      (m s : Text) (b : List (EngramEntry N))
      → Distinct (signatures b)
      → ids_at s (purge_bucket m b).0 ≡ left m (ids_at s b)
  unfolding purge_bucket ids_at left
  ids_at-purge_bucket m s [] d = refl
  ids_at-purge_bucket m s (e ∷ b) d = ground (
    arith,
    ids_at-purge_bucket m s b d.1,
    strip-ids m e,
    strip-signature m e,
    text_eq_iff e.signature s,
    ids_at-none_iff-absent s b,
    ap (λ (t : Text). contains (signatures b) t) {x = e.signature} {y = s},
    d.0,
  )

  contains-purge :
      (m : Text) (i : ℕ) (d : List (ℕ × List (EngramEntry N)))
      → contains (Dict.keys d) i ≡ false
      → contains (Dict.keys (purge m d).0) i ≡ false
  unfolding purge contains
  contains-purge m i [] h = refl
  contains-purge m i ((j, b) ∷ d) h = ground (arith, contains-purge m i d)

  abbrev bucket_of : Option (List (EngramEntry N)) → List (EngramEntry N)
  bucket_of none = []
  bucket_of (some b) = b

  is_empty-nil : (b : List (EngramEntry N)) → is_empty b ≡ true → b ≡ []
  unfolding is_empty
  is_empty-nil [] h = refl
  is_empty-nil (e ∷ b) h = cc

  get-purge :
      (m : Text) (i : ℕ) (d : List (ℕ × List (EngramEntry N)))
      → Distinct (Dict.keys d)
      → bucket_of (Dict.get i (purge m d).0) ≡ (purge_bucket m (bucket_of (Dict.get i d))).0
  unfolding purge Dict.get purge_bucket
  get-purge m i [] h = refl
  get-purge m i ((j, b) ∷ d) h = ground (
    arith,
    get-purge m i d h.1,
    is_empty-nil (purge_bucket m b).0,
    nat_eq_iff j i,
    Dict.get_of_absent i d,
    h.0,
  )

  purge-buckets :
      (max : ℕ) (m : Text) (d : List (ℕ × List (EngramEntry N)))
      → All (λ item. IsBucket max item.1) d
      → Distinct (Dict.keys d)
      → All (λ item. IsBucket max item.1) (purge m d).0 × Distinct (Dict.keys (purge m d).0)
  unfolding purge
  purge-buckets max m [] h k = (tt, tt)
  purge-buckets max m ((i, b) ∷ d) h k =
      let (each, apart) = purge-buckets max m d h.1 k.1 in
      elim (Bool-cases (is_empty (purge_bucket m b).0)) [
        | inl e ↦ rw (e, purge) (each, apart)
        | inr e ↦
            rw (e, purge)
              ((purge_bucket-IsBucket max m b h.0, each), (contains-purge m i d k.0, apart))
      ]

  pub invalidate_memory-IsValid :
      (m : Text) (c : EngramCache N) → IsValid c → IsValid (invalidate_memory m c).0
  unfolding invalidate_memory
  invalidate_memory-IsValid m c v =
      let (each, apart) = purge-buckets c.max_memory_ids m c.entries v.buckets v.slots in
      record { counted = v.counted; rejections = v.rejections; buckets = each; slots = apart }

  bucket_at-Distinct :
      (c : EngramCache N) (i : ℕ)
      → IsValid c
      → Distinct (signatures (bucket_of (Dict.get i c.entries)))
  bucket_at-Distinct c i v = elim (Option-cases (Dict.get i c.entries)) [
    | inl e ↦ rw e tt
    | inr (b, e) ↦ rw e (Dict.All-get (IsBucket c.max_memory_ids) i c.entries v.buckets e).apart
  ]

  bucket_at-of : (c : EngramCache N) (i : ℕ) → bucket_at i c ≡ bucket_of (Dict.get i c.entries)
  bucket_at-of c i = ground arith

  -- Invalidating a memory takes its id out of what every slot holds for every signature, forgets
  -- what is left with no id, and keeps all other ids in their order.
  pub invalidate_memory-view :
      (m : Text) (c : EngramCache N) (i : ℕ) (s : Text)
      → IsValid c
      → view (invalidate_memory m c).0 i s ≡ left m (view c i s)
  unfolding invalidate_memory view
  invalidate_memory-view m c i s v =
      ap (ids_at s) (bucket_at-of (invalidate_memory m c).0 i ∙ get-purge m i c.entries v.slots)
      ∙ ids_at-purge_bucket m s (bucket_of (Dict.get i c.entries)) (bucket_at-Distinct c i v)
      ∙ ap (λ b. left m (ids_at s b)) (sym (bucket_at-of c i))

  -- how many entries list a memory
  abbrev pub holders_in : Text → List (EngramEntry N) → ℕ
  holders_in m [] = 0
  holders_in m (e ∷ b) = (if contains e.memory_ids m then 1 else 0) + holders_in m b

  abbrev pub holders : Text → List (ℕ × List (EngramEntry N)) → ℕ
  holders m [] = 0
  holders m ((i, b) ∷ d) = holders_in m b + holders m d

  purge_bucket-count :
      (m : Text) (b : List (EngramEntry N))
      → ((purge_bucket m b).1 ≡ holders_in m b) × (holders_in m (purge_bucket m b).0 ≡ 0)
  unfolding purge_bucket
  purge_bucket-count m [] = (refl, refl)
  purge_bucket-count m (e ∷ b) = ground (
    arith,
    purge_bucket-count m b,
    ap (λ ids. contains ids m) (strip-ids m e),
    contains-filter_by (λ item. not (item == m)) m e.memory_ids,
    beq_self m,
  )

  purge-count :
      (m : Text) (d : List (ℕ × List (EngramEntry N)))
      → ((purge m d).1 ≡ holders m d) × (holders m (purge m d).0 ≡ 0)
  unfolding purge
  purge-count m [] = (refl, refl)
  purge-count m ((i, b) ∷ d) = ground (arith, purge_bucket-count m b, purge-count m d)

  -- The number that is returned is that of the entries that listed the memory, and afterwards no
  -- entry lists it.
  pub invalidate_memory-count :
      (m : Text) (c : EngramCache N)
      → ((invalidate_memory m c).1 ≡ holders m c.entries)
        × (holders m (invalidate_memory m c).0.entries ≡ 0)
  unfolding invalidate_memory
  invalidate_memory-count m c = purge-count m c.entries

contains-without : (m : Text) (ids : List Text) → contains (without m ids) m ≡ false
contains-without m ids =
    ground (arith, contains-filter_by (λ item. not (item == m)) m ids, beq_self m)

contains-shown :
    (m : Text) (top_k : Option ℕ) (ids : List Text)
    → contains ids m ≡ false
    → contains (shown top_k (some ids)) m ≡ false
contains-shown m none ids h = h
contains-shown m (some k) ids h = contains-take k m ids h

contains-left :
    (m : Text) (top_k : Option ℕ) (o : Option (List Text))
    → contains (shown top_k (left m o)) m ≡ false
unfolding left contains
contains-left m top_k none = refl
contains-left m top_k (some ids) = elim (Bool-cases (is_empty (without m ids))) [
  | inl e ↦ rw (e, left) refl
  | inr e ↦ rw (e, left) (contains-shown m top_k (without m ids) (contains-without m ids))
]

-- After a memory is invalidated no lookup returns it.
pub lookup-invalidate_memory :
    {N : Type 0} (host : Host N) (now : N) (q : Query N) (top_k : Option ℕ) (m : Text)
    (c : EngramCache N)
    → IsValid c
    → contains (lookup host now q top_k (invalidate_memory m c).0).1 m ≡ false
lookup-invalidate_memory host now q top_k m c v =
    let c' = (invalidate_memory m c).0 in
    ap (λ ids. contains ids m)
      ((lookup-view host now q top_k c' (slot host c' q) (signature host q)).0
        ∙ ap (shown top_k) (invalidate_memory-view m c (slot host c' q) (signature host q) v))
    ∙ contains-left m top_k (view c (slot host c' q) (signature host q))
