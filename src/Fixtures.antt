-- ===== src/Fixtures.antt =====
-- `serde_json::Value` for the tests: a concrete type for the values that the models take as a
-- parameter.
use chudbot.Common.{
  Bool, true, false, ◌≡◌, refl, ap, Option, none, some, List, [], ◌∷◌, ◌++◌, Text, codes, lookup,
  text_key, eq_of_some,
}
use chudbot.Agent.{ℤ, Values}
use chudbot.Prompt.{Json}
use chudbot.Anthropic.{Wire}

-- JSON values, with the fields of an object in order.
mutual
  pub data Value : Type 0 where
    null : Value
    bool : Bool → Value
    number : ℤ → Value
    string : Text → Value
    array : Items → Value
    object : Fields → Value

  pub data Items : Type 0 where
    no_items : Items
    item : Value → Items → Items

  pub data Fields : Type 0 where
    no_fields : Fields
    field : Text → Value → Fields → Fields

abbrev pub from_list : List (Text × Value) → Fields
from_list [] = no_fields
from_list ((k, v) ∷ l) = field k v (from_list l)

abbrev pub to_list : Fields → List (Text × Value)
to_list no_fields = []
to_list (field k v f) = (k, v) ∷ to_list f

pub to_list-from_list : (l : List (Text × Value)) → to_list (from_list l) ≡ l
to_list-from_list [] = refl
to_list-from_list ((k, v) ∷ l) = ap (λ r. (k, v) ∷ r) (to_list-from_list l)

abbrev pub from_items : List Value → Items
from_items [] = no_items
from_items (v ∷ l) = item v (from_items l)

abbrev pub to_items : Items → List Value
to_items no_items = []
to_items (item v i) = v ∷ to_items i

pub to_items-from_items : (l : List Value) → to_items (from_items l) ≡ l
to_items-from_items [] = refl
to_items-from_items (v ∷ l) = ap (λ r. v ∷ r) (to_items-from_items l)

abbrev pub as_array : Value → Option (List Value)
as_array (array i) = some (to_items i)
as_array _ = none

abbrev pub get : Value → Text → Option Value
get (object f) key = lookup key (to_list f)
get _ key = none

abbrev pub as_bool : Value → Option Bool
as_bool (bool b) = some b
as_bool _ = none

abbrev pub as_str : Value → Option Text
as_str (string t) = some t
as_str _ = none

abbrev pub as_i64 : Value → Option ℤ
as_i64 (number n) = some n
as_i64 _ = none

abbrev pub as_object : Value → Option (List (Text × Value))
as_object (object f) = some (to_list f)
as_object _ = none

abbrev pub json_values : Values Value
json_values = record {
  null = null;
  bool = bool;
  number = number;
  string = string;
  object = λ l. object (from_list l);
  get = get;
  as_bool = as_bool;
  get-object = λ m key. ap (λ l. lookup key l) (to_list-from_list m);
  as_bool-bool = λ b. refl;
}

pub as_object-get :
    (v : Value) (m : List (Text × Value)) (key : Text)
    → as_object v ≡ some m
    → get v key ≡ lookup key m
as_object-get (object f) m key e = ap (λ l. lookup key l) (eq_of_some e)
as_object-get null m key e = cc
as_object-get (bool b) m key e = cc
as_object-get (number n) m key e = cc
as_object-get (string t) m key e = cc
as_object-get (array l) m key e = cc

abbrev pub prompt_json : Json Value
prompt_json = record {
  values = json_values;
  as_str = as_str;
  as_i64 = as_i64;
  as_object = as_object;
  as_str-string = λ t. refl;
  as_i64-number = λ n h. refl;
  as_object-get = as_object-get;
}

-- The text of a value, unescaped; numbers are not told apart.
abbrev mutual
  pub show : Value → Text
  show null = codes "null"
  show (bool true) = codes "true"
  show (bool false) = codes "false"
  show (number _) = codes "0"
  show (string t) = 34 ∷ t ++ 34 ∷ []
  show (array i) = 91 ∷ show_items i ++ 93 ∷ []
  show (object f) = 123 ∷ show_fields f ++ 125 ∷ []

  pub show_items : Items → Text
  show_items no_items = []
  show_items (item v i) = show v ++ 44 ∷ show_items i

  pub show_fields : Fields → Text
  show_fields no_fields = []
  show_fields (field k v f) = k ++ 58 ∷ show v ++ 44 ∷ show_fields f

abbrev pub anthropic_wire : Wire Value
anthropic_wire = record {
  json = prompt_json;
  array = λ l. array (from_items l);
  as_array = as_array;
  to_string = show;
  as_array-array = λ l. ap some (to_items-from_items l);
}
