-- ===== src/Helper/Json.antt =====
-- Values of JSON as encoding/json reads them into `any`, with the numbers as an argument. A map is a list of entries.
use dns_stack.Prelude.{Bool, List, [], ◌∷◌}
use dns_stack.Text.{Bytes}

mutual
  pub data Json (N : Type 0) : Type 0 where
    null : Json N
    bool : Bool → Json N
    num : N → Json N
    str : Bytes → Json N
    arr : Items N → Json N
    obj : Fields N → Json N

  pub data Items (N : Type 0) : Type 0 where
    nil : Items N
    cons : Json N → Items N → Items N

  pub data Fields (N : Type 0) : Type 0 where
    end : Fields N
    field : Bytes → Json N → Fields N → Fields N

module _ {N : Type 0} where
  abbrev pub fields_list : Fields N → List (Bytes × Json N)
  fields_list end = []
  fields_list (field k v fs) = (k, v) ∷ fields_list fs

  abbrev pub fields_of : List (Bytes × Json N) → Fields N
  fields_of [] = end
  fields_of ((k, v) ∷ m) = field k v (fields_of m)

  abbrev pub items_list : Items N → List (Json N)
  items_list nil = []
  items_list (cons v vs) = v ∷ items_list vs
