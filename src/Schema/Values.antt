-- ===== src/Schema/Values.antt =====
-- The values that `json.loads` gives, which scopes, metadata and provenance hold, and Python's `==`
-- on them: dictionaries are compared without regard to the order of their keys.
use agent_memory_living_memo.Prelude.{
  ℕ, suc, Bool, true, false, ◌&&◌, Option, none, some, Text, Text_eq, ◌==◌, if◌then◌else◌, nat_eq,
}

mutual
  pub data Json (N : Type 0) : Type 0 where
    null : Json N
    bool : Bool → Json N
    num : N → Json N
    text : Text → Json N
    list : Items N → Json N
    dict : Fields N → Json N

  pub data Items (N : Type 0) : Type 0 where
    nil : Items N
    cons : Json N → Items N → Items N

  pub data Fields (N : Type 0) : Type 0 where
    end : Fields N
    field : Text → Json N → Fields N → Fields N

-- `of_bool` is the number that Python has a Boolean equal to, 1 or 0.
module _ {N : Type 0} (num_eq : N → N → Bool) (of_bool : Bool → N) where
  unfoldable pub find_field : Text → Fields N → Option (Json N)
  find_field k end = none
  find_field k (field j v fs) = if j == k then some v else find_field k fs

  unfoldable pub count_fields : Fields N → ℕ
  count_fields end = 0
  count_fields (field j v fs) = suc (count_fields fs)

  bool_eq : Bool → Bool → Bool
  bool_eq true b = b
  bool_eq false true = false
  bool_eq false false = true

  unfoldable mutual
    unfolding find_field count_fields bool_eq

    pub json_eq : Json N → Json N → Bool
    json_eq null null = true
    json_eq (bool a) (bool b) = bool_eq a b
    json_eq (bool a) (num b) = num_eq (of_bool a) b
    json_eq (num a) (bool b) = num_eq a (of_bool b)
    json_eq (num a) (num b) = num_eq a b
    json_eq (text a) (text b) = a == b
    json_eq (list a) (list b) = items_eq a b
    json_eq (dict a) (dict b) = nat_eq (count_fields a) (count_fields b) && fields_within a b
    json_eq _ _ = false

    pub items_eq : Items N → Items N → Bool
    items_eq nil nil = true
    items_eq (cons a as') (cons b bs) = json_eq a b && items_eq as' bs
    items_eq _ _ = false

    -- every field of the first stands in the second with an equal value
    pub fields_within : Fields N → Fields N → Bool
    fields_within end b = true
    fields_within (field k v fs) b = elim (find_field k b) [
      | none ↦ false
      | some w ↦ json_eq v w && fields_within fs b
    ]
