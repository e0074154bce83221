-- ===== src/Knowledge/Entities.antt =====
-- What `upsert_entity` does to the entity that it names, and to all others.
use agent_memory_living_memo.Prelude.{
  true, false, Option, none, some, List, [], ◌∷◌, ◌++◌, Text, Text_eq, ◌==◌, contains, map,
  filter_by, not, contains-filter_by, text_eq_iff, contains-append, contains-dedup, dedup, is_empty,
  Bool-cases, Option-cases, beq_self, ◌≡◌, refl, ap, ◌∙◌, ◌⊎◌, inl, inr, arith,
}
use agent_memory_living_memo.Prelude.Dict
use agent_memory_living_memo.Prelude.Among.{contains-sort_by}
use agent_memory_living_memo.Prelude.Floats.{
  Floats, IsOrder, IsUnit, clamp_low, clamp_low-IsUnit, fmax, fmax-IsUnit, asym,
}
use agent_memory_living_memo.Prelude.Results.{raised, done, done_injective, raised_not_done}
use agent_memory_living_memo.Prelude.Strings.{strip, text_before}
use agent_memory_living_memo.Prelude.Strings.Order.{sorted_set}
use agent_memory_living_memo.Schema.Host.Error.{value_error}
use agent_memory_living_memo.Store.{replace_row}
use agent_memory_living_memo.Store.Inspect.{get-replace_row}
use agent_memory_living_memo.Knowledge.{
  KnowledgeEntity, KnowledgeGraph, NewEntity, Digests, sources_of, own_aliases, clean_alias,
  entity_id_of, entity_row, upsert_entity, get_entity,
}

contains-sorted_set :
    (items : List Text) (a : Text) → contains (sorted_set items) a ≡ contains items a
unfolding sorted_set
contains-sorted_set items a = contains-sort_by text_before a (dedup items) ∙ contains-dedup a items

-- what was among the items is among the merged ones
merged-left :
    (xs ys : List Text) (a : Text)
    → contains xs a ≡ true
    → contains (sorted_set (xs ++ ys)) a ≡ true
merged-left xs ys a h = ground (arith, h, contains-sorted_set (xs ++ ys) a, contains-append a xs ys)

merged-right :
    (xs ys : List Text) (a : Text)
    → contains ys a ≡ true
    → contains (sorted_set (xs ++ ys)) a ≡ true
merged-right xs ys a h =
    ground (arith, h, contains-sorted_set (xs ++ ys) a, contains-append a xs ys)

found_entity :
    {N : Type 0} (id : Text) (k : KnowledgeGraph N) {x : KnowledgeEntity N}
    → get_entity id k ≡ done x
    → Dict.get id k.entities ≡ some x
unfolding get_entity
found_entity id k {x} h = elim (Option-cases (Dict.get id k.entities)) [
  | inl e ↦ absurd (raised_not_done (rw (e, get_entity) at h))
  | inr (y, e) ↦ e ∙ ap some (done_injective (rw (e, get_entity) at h))
]

own_name : (aliases : List Text) (name : Text) → contains (own_aliases aliases name) name ≡ true
unfolding own_aliases contains
own_name aliases name = merged-right _ (name ∷ []) name (ground (arith, beq_self name))

contains-map :
    (f : Text → Text) (xs : List Text) (a : Text)
    → contains xs a ≡ true
    → contains (map f xs) (f a) ≡ true
unfolding contains
contains-map f [] a h = h
contains-map f (x ∷ xs) a h = elim (Bool-cases (x == a)) [
  | inl e ↦ let same : x ≡ a = (text_eq_iff x a).0 e in rw same (ground (arith, beq_self (f a)))
  | inr e ↦ ground (arith, contains-map f xs a, h, e)
]

own_alias :
    (aliases : List Text) (name a : Text)
    → contains aliases a ≡ true
    → is_empty (clean_alias a) ≡ false
    → contains (own_aliases aliases name) (clean_alias a) ≡ true
unfolding own_aliases
own_alias aliases name a h filled =
    merged-left (filter_by (λ item. not (is_empty item)) (map clean_alias aliases)) (name ∷ [])
      (clean_alias a)
      (contains-filter_by (λ item. not (is_empty item)) (clean_alias a) (map clean_alias aliases)
        ∙ rw (filled, contains-map clean_alias aliases a h) refl)

module _ (F : Floats) (lower : Text → Text) (digests : Digests F.Float) where
  open F use {Float, lt}

  -- what a row says of the row that was there before it
  pub record IsUpdate (e : NewEntity Float) (old row : KnowledgeEntity Float) : Type 0 where
    pub aliases : (a : Text) → contains old.aliases a ≡ true → contains row.aliases a ≡ true
    pub own : contains row.aliases (strip e.name) ≡ true
    pub named :
        (a : Text)
        → contains e.aliases a ≡ true
        → is_empty (clean_alias a) ≡ false
        → contains row.aliases (clean_alias a) ≡ true
    pub sources :
        (id : Text)
        → contains (old.source_memory_ids ++ sources_of e.source_memory_id) id ≡ true
        → contains row.source_memory_ids id ≡ true
    pub confidence : lt row.confidence old.confidence ≡ false
    pub bounds : IsUnit F old.confidence → IsUnit F row.confidence
    pub created_at : row.created_at ≡ old.created_at

  -- the id, the row and the tables that a call writes
  abbrev pub upserted_id : NewEntity Float → Text
  upserted_id e = entity_id_of F lower digests (strip e.name) e.scope

  abbrev pub upserted_row : NewEntity Float → KnowledgeGraph Float → KnowledgeEntity Float
  upserted_row e k =
      entity_row F lower digests e (strip e.name) (Dict.get (upserted_id e) k.entities)

  abbrev pub upserted : NewEntity Float → KnowledgeGraph Float → KnowledgeGraph Float
  upserted e k = record k { entities = replace_row (upserted_id e) (upserted_row e k) k.entities }

  fmax-left : IsOrder F → (x y : Float) → lt (fmax F x y) x ≡ false
  unfolding fmax
  fmax-left o x y = ground (arith, asym F o x y, o.irrefl x)

  entity_row-IsUpdate :
      IsOrder F
      → (e : NewEntity Float) (old : KnowledgeEntity Float)
      → IsUpdate e old (entity_row F lower digests e (strip e.name) (some old))
  unfolding entity_row
  entity_row-IsUpdate o e old = record {
    aliases = λ a h. merged-left old.aliases (own_aliases e.aliases (strip e.name)) a h;
    own =
        merged-right old.aliases (own_aliases e.aliases (strip e.name)) (strip e.name)
          (own_name e.aliases (strip e.name));
    named = λ a h filled.
        merged-right old.aliases (own_aliases e.aliases (strip e.name)) (clean_alias a)
          (own_alias e.aliases (strip e.name) a h filled);
    sources = λ id h. contains-sorted_set _ id ∙ h;
    confidence = fmax-left o old.confidence (clamp_low F e.confidence);
    bounds = λ u.
        fmax-IsUnit F old.confidence (clamp_low F e.confidence) u
          (clamp_low-IsUnit F o e.confidence);
    created_at = refl;
  }

  pub upsert_entity_lem :
      (e : NewEntity Float) (k : KnowledgeGraph Float)
      → is_empty (strip e.name) ≡ false
      → upsert_entity F lower digests e k ≡ (upserted e k, done (upserted_row e k))
  unfolding upsert_entity get_entity
  upsert_entity_lem e k filled =
      rw
        (
          upsert_entity,
          filled,
          get_entity,
          get-replace_row (upserted_id e) (upserted_id e) (upserted_row e k) k.entities,
          beq_self (upserted_id e),
        )
        refl

  -- a call raises and changes nothing, or writes its row
  pub upsert_entity-cases :
      (e : NewEntity Float) (k : KnowledgeGraph Float)
      → (upsert_entity F lower digests e k ≡ (k, raised value_error))
        ⊎ (upsert_entity F lower digests e k ≡ (upserted e k, done (upserted_row e k)))
  unfolding upsert_entity
  upsert_entity-cases e k = elim (Bool-cases (is_empty (strip e.name))) [
    | inl blank ↦ inl (rw (blank, upsert_entity) refl)
    | inr filled ↦ inr (upsert_entity_lem e k filled)
  ]

  entity_row-entity_id :
      (e : NewEntity Float) (name : Text) (old : Option (KnowledgeEntity Float))
      → (entity_row F lower digests e name old).entity_id
        ≡ entity_id_of F lower digests name e.scope
  unfolding entity_row
  entity_row-entity_id e name none = refl
  entity_row-entity_id e name (some old) = refl

  -- the entity that a call returns is stored under its id
  pub upserted-get :
      (e : NewEntity Float) (k : KnowledgeGraph Float)
      → Dict.get (upserted_row e k).entity_id (upserted e k).entities ≡ some (upserted_row e k)
  upserted-get e k =
      ap (λ id. Dict.get id (upserted e k).entities)
        (entity_row-entity_id e (strip e.name) (Dict.get (upserted_id e) k.entities))
      ∙ get-replace_row (upserted_id e) (upserted_id e) (upserted_row e k) k.entities
      ∙ rw (beq_self (upserted_id e)) refl

  -- Naming an entity that is there again, by a name that is not blank, returns a row that has all
  -- the names and sources of the old one, the stripped name, every new alias whose cleaned form is
  -- not empty, in this form, and the new source. Its confidence is not less, and between 0 and 1 if
  -- the old one was, and the time of its creation is the old one's. The row is what is then stored
  -- under its id, and all other ids hold what they held.
  pub upsert_entity-IsUpdate :
      IsOrder F
      → (e : NewEntity Float) (old : KnowledgeEntity Float) (k : KnowledgeGraph Float)
      → is_empty (strip e.name) ≡ false
      → get_entity (entity_id_of F lower digests (strip e.name) e.scope) k ≡ done old
      → (k' : KnowledgeGraph Float) × (row : KnowledgeEntity Float) × (upsert_entity F lower digests
            e k
          ≡ (k', done row))
        × IsUpdate e old row
        × (get_entity (entity_id_of F lower digests (strip e.name) e.scope) k' ≡ done row)
        × ((id : Text)
            → (entity_id_of F lower digests (strip e.name) e.scope == id) ≡ false
            → get_entity id k' ≡ get_entity id k)
  unfolding get_entity
  upsert_entity-IsUpdate o e old k filled there =
      let found : Dict.get (upserted_id e) k.entities ≡ some old =
        found_entity (upserted_id e) k there in
      (
        upserted e k,
        upserted_row e k,
        upsert_entity_lem e k filled,
        rw found (entity_row-IsUpdate o e old),
        rw
            (
              get-replace_row (upserted_id e) (upserted_id e) (upserted_row e k) k.entities,
              get_entity,
              beq_self (upserted_id e),
            )
            refl,
        λ id other.
            rw (get-replace_row (upserted_id e) id (upserted_row e k) k.entities, get_entity, other)
              refl,
      )
