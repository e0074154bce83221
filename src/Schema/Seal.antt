-- ===== src/Schema/Seal.antt =====
-- What the constructor completes stays as it is: reading back the dictionary of a memory that the
-- constructor made gives the memory again.
use agent_memory_living_memo.Prelude.{
  false, ◌||◌, Option, none, some, List, [], ◌∷◌, Text, codes, is_empty, Text_eq, if◌then◌else◌,
  Bool-cases, Distinct, ◌≡◌, refl, ap, sym, subst, ◌∙◌, inl, inr, arith,
}
use agent_memory_living_memo.Prelude.Floats.{Floats, IsUnit}
use agent_memory_living_memo.Prelude.Results.{done, and_then-done, guard-done, done_injective}
use agent_memory_living_memo.Prelude.Strings.{strip}
use agent_memory_living_memo.Prelude.Strings.Order.{
  sorted_set, sorted_set-Distinct, sorted_set-sorted_set,
}
use agent_memory_living_memo.Schema.{Content, ModalityRef, MemoryEnvelope}
use agent_memory_living_memo.Schema.Host.{Host, IsHost}
use agent_memory_living_memo.Schema.Host.Error.{value_error, type_error}
use agent_memory_living_memo.Schema.Modality.{modality_post_init, modalities_of, digested}
use agent_memory_living_memo.Schema.Envelope.{
  EnvelopeDict, clamp_score, created_or, has_bytes, hashed, named, post_init, to_dict, from_dict,
  arguments, completed, compute_content_hash,
}

-- the fields of a memory that its constructor leaves alone
pub record IsSealed (F : Floats) (h : Host F.Float) (m : MemoryEnvelope F.Float) : Type 0 where
  pub modalities : modalities_of h m.modalities ≡ done m.modalities
  pub memory_type : is_empty m.memory_type ≡ false
  pub tags : sorted_set m.tags ≡ m.tags
  pub entities : sorted_set m.entities ≡ m.entities
  pub importance : clamp_score F m.importance ≡ done m.importance
  pub confidence : clamp_score F m.confidence ≡ done m.confidence
  pub content_hash : is_empty m.content_hash ≡ false
  pub id : is_empty m.id ≡ false

module _ {N : Type 0} {h : Host N} (i : IsHost h) where
  -- a modality with a name in normal form, when its digest is completed, is complete
  digested_complete :
      (item : ModalityRef N) (content : Option (Content N))
      → item.content ≡ content
      → h.lower (strip item.modality) ≡ item.modality
      → is_empty item.modality ≡ false
      → modality_post_init h (digested h item content) ≡ done (digested h item content)
  unfolding digested modality_post_init
  digested_complete item none c n f = rw (n, f, c) refl
  digested_complete item (some content) c n f = rw (n, f, c) refl

  normal_name : (s : Text) → h.lower (strip (h.lower (strip s))) ≡ h.lower (strip s)
  normal_name s = ap h.lower (i.strip-lower s) ∙ i.lower_lower (strip s)

  -- a modality that was completed is complete
  pub modality_post_init_again :
      (raw : ModalityRef N) {item : ModalityRef N}
      → modality_post_init h raw ≡ done item
      → modality_post_init h item ≡ done item
  unfolding modality_post_init
  modality_post_init_again raw {item} e =
      let name = h.lower (strip raw.modality) in
      let made : ModalityRef N = digested h (record raw { modality = name }) raw.content in
      let (filled, same) = guard-done (is_empty name) value_error (done made) e in
      subst (λ (x : ModalityRef N). modality_post_init h x ≡ done x) (done_injective same)
        (digested_complete (record raw { modality = name }) raw.content refl
          (normal_name raw.modality) filled)

  pub modalities_of_again :
      (raw : List (ModalityRef N)) {items : List (ModalityRef N)}
      → modalities_of h raw ≡ done items
      → modalities_of h items ≡ done items
  unfolding modalities_of
  modalities_of_again [] {items} e = rw (← done_injective e) refl
  modalities_of_again (r ∷ rs) {items} e =
      let (first, p, q) = and_then-done (modality_post_init h r) _ e in
      let (rest, p', q') = and_then-done (modalities_of h rs) _ q in
      rw (← done_injective q') (rw (modality_post_init_again r p, modalities_of_again rs p') refl)

module _ (F : Floats) where
  open F use {Float, lt, of_ℕ}

  clamp_score-done :
      (x : Float) {y : Float} → clamp_score F x ≡ done y → (x ≡ y) × (clamp_score F y ≡ done y)
  unfolding clamp_score
  clamp_score-done x {y} e =
      let (inside, same) = guard-done (lt x (of_ℕ 0) || lt (of_ℕ 1) x) value_error (done x) e in
      let e' : x ≡ y = done_injective same in
      (e', subst (λ (z : Float). clamp_score F z ≡ done z) e' (rw inside refl))

  -- a score that is accepted is between 0 and 1
  pub clamp_score-IsUnit : (x : Float) {y : Float} → clamp_score F x ≡ done y → IsUnit F y
  unfolding clamp_score
  clamp_score-IsUnit x {y} e =
      let (inside, same) = guard-done (lt x (of_ℕ 0) || lt (of_ℕ 1) x) value_error (done x) e in
      let e' : x ≡ y = done_injective same in
      rw (← e') (record { low = ground (arith, inside); high = ground (arith, inside) })

module _ {N : Type 0} {h : Host N} where
  -- Hashing a memory fills its content hash and leaves the rest.
  hashed-done :
      (i : IsHost h) (m : MemoryEnvelope N) {n : MemoryEnvelope N}
      → hashed h m ≡ done n
      → (hash : Text) × (n ≡ record m { content_hash = hash }) × (is_empty hash ≡ false)
  unfolding hashed compute_content_hash
  hashed-done i m {n} e = elim (Bool-cases (is_empty m.content_hash)) [
    | inl blank ↦
        let (hash, p, q) = and_then-done (compute_content_hash h m) _ (rw (blank, hashed) at e) in
        let (some', same) = guard-done (has_bytes m.modalities) type_error _ p in
        (hash, sym (done_injective q), rw (← done_injective same) (i.digest_filled _))
    | inr filled ↦ (m.content_hash, sym (done_injective (rw (filled, hashed) at e)), filled)
  ]

module _ {N : Type 0} (h : Host N) where
  -- Naming a memory fills its id and leaves the rest.
  named_lem :
      (m : MemoryEnvelope N)
      → (named h m ≡ record m { id = (named h m).id }) × (is_empty (named h m).id ≡ false)
  unfolding named is_empty
  named_lem m = elim (Bool-cases (is_empty m.id)) [
    | inl blank ↦ (rw (blank, named) refl, rw (blank, named) refl)
    | inr filled ↦ (rw (filled, named) refl, rw (filled, named) filled)
  ]

-- hashing and naming a memory
hashed-named :
    {N : Type 0} {h : Host N} (i : IsHost h) (m : MemoryEnvelope N) {sealed n : MemoryEnvelope N}
    → hashed h m ≡ done sealed
    → named h sealed ≡ n
    → (hash : Text) × (id : Text) × (n ≡ record m { content_hash = hash; id = id })
      × (is_empty hash ≡ false)
      × (is_empty id ≡ false)
hashed-named {h} i m {sealed} {n} p q =
    let (hash, s, filled) = hashed-done i m p in
    let (same, chosen) = named_lem h sealed in
    let id : Text = (named h sealed).id in
    (hash, id, sym q ∙ same ∙ ap (λ (x : MemoryEnvelope _). record x { id = id }) s, filled, chosen)

or_episodic : (s : Text) → is_empty (if is_empty s then codes "episodic" else s) ≡ false
unfolding is_empty
or_episodic [] = refl
or_episodic (c ∷ s) = refl

module _ (F : Floats) {h : Host F.Float} (i : IsHost h) where
  open F use {Float}

  -- what the constructor makes of complete modalities
  pub post_init-IsSealed :
      (m : MemoryEnvelope Float) (updated_at : Option Float) {n : MemoryEnvelope Float}
      → modalities_of h m.modalities ≡ done m.modalities
      → post_init F h m updated_at ≡ done n
      → IsSealed F h n
  unfolding post_init
  post_init-IsSealed m updated_at {n} complete e =
      let (importance, p, e') = and_then-done (clamp_score F m.importance) _ e in
      let (confidence, q, e'') = and_then-done (clamp_score F m.confidence) _ e' in
      let (sealed, r, e''') =
        and_then-done (hashed h (completed F h m updated_at importance confidence)) _ e'' in
      let whole : named h sealed ≡ n = done_injective e''' in
      let (hash, id, same, filled, chosen) =
        hashed-named i (completed F h m updated_at importance confidence) r whole in
      rw same (record {
        modalities = complete;
        memory_type = or_episodic m.memory_type;
        tags = sorted_set-sorted_set m.tags;
        entities = sorted_set-sorted_set m.entities;
        importance = (clamp_score-done F m.importance p).1;
        confidence = (clamp_score-done F m.confidence q).1;
        content_hash = filled;
        id = chosen;
      })

  -- what is read from a dictionary
  pub from_dict-IsSealed :
      (now : Float) (d : EnvelopeDict Float) {n : MemoryEnvelope Float}
      → from_dict F h now d ≡ done n
      → IsSealed F h n
  unfolding from_dict
  from_dict-IsSealed now d {n} e =
      let (items, p, q) = and_then-done (modalities_of h d.modalities) _ e in
      post_init-IsSealed (arguments F h now d items) d.updated_at
        (modalities_of_again i d.modalities p) q

  -- a sealed memory is read back as it was written
  pub from_dict-to_dict :
      (now : Float) (m : MemoryEnvelope Float)
      → IsSealed F h m
      → created_or F now (some m.created_at) ≡ m.created_at
      → from_dict F h now (to_dict m) ≡ done m
  unfolding from_dict to_dict post_init hashed named
  from_dict-to_dict now m s c =
      rw (s.modalities, c, s.memory_type, s.tags, s.entities, s.importance, s.confidence)
        (rw (s.content_hash, s.memory_type, s.id, named) refl)

  -- A memory that `from_dict` made, at a time other than zero, is what `from_dict` makes of the
  -- memory's own dictionary, whatever the clock shows: no field changes when it is read again.
  pub from_dict_again :
      (now later : Float) (d : EnvelopeDict Float) {m : MemoryEnvelope Float}
      → from_dict F h now d ≡ done m
      → created_or F later (some m.created_at) ≡ m.created_at
      → from_dict F h later (to_dict m) ≡ done m
  from_dict_again now later d {m} e c = from_dict-to_dict later m (from_dict-IsSealed now d e) c

  -- Whatever dictionary `from_dict` accepts, the importance and the confidence of the memory are
  -- between 0 and 1, and no tag and no entity stands twice.
  pub from_dict-bounds :
      (now : Float) (d : EnvelopeDict Float) {m : MemoryEnvelope Float}
      → from_dict F h now d ≡ done m
      → IsUnit F m.importance × IsUnit F m.confidence × Distinct m.tags × Distinct m.entities
  from_dict-bounds now d {m} e =
      let s = from_dict-IsSealed now d e in
      (
        clamp_score-IsUnit F m.importance s.importance,
        clamp_score-IsUnit F m.confidence s.confidence,
        subst Distinct s.tags (sorted_set-Distinct m.tags),
        subst Distinct s.entities (sorted_set-Distinct m.entities),
      )
