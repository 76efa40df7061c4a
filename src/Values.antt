-- ===== src/Values.antt =====
-- Python's values as far as JSON has them, with tuples: dicts keep their entries in order, and a float is given by
-- its repr. Other objects are left out.
use backend_template.Prelude.{
  String, Bool, true, false, Option, none, some, str_eq, ◌==◌, if◌then◌else◌, not, ◌||◌,
}
use backend_template.Prelude.Int.{ℤ, pos, negsuc}

-- a key of a dict
pub data Key : Type 0 where
  text : String → Key
  number : ℤ → Key

mutual
  pub data Value : Type 0 where
    null : Value
    bool : Bool → Value
    int : ℤ → Value
    float : String → Value
    str : String → Value
    list : Items → Value
    tuple : Items → Value
    dict : Fields → Value

  pub data Items : Type 0 where
    nil : Items
    cons : Value → Items → Items

  -- the entries of a dict, in order
  pub data Fields : Type 0 where
    end : Fields
    field : Key → Value → Fields → Fields

-- `key == name`
unfoldable pub is_key : String → Key → Bool
is_key name (text key) = str_eq key name
is_key name (number n) = false

-- `d.get(name)`
unfoldable pub find : String → Fields → Option Value
find name end = none
find name (field key value d) = if is_key name key then some value else find name d

-- `d[name] = value`
unfoldable pub put : String → Value → Fields → Fields
put name value end = field (text name) value end
put name value (field key old d) =
    let rest = put name value d in if is_key name key then field key value d else field key old rest

-- `d.pop(name, None)`: the keys of a dict are distinct
unfoldable pub pop : String → Fields → Fields
pop name end = end
pop name (field key value d) =
    let rest = pop name d in if is_key name key then rest else field key value rest

-- the truth of a value
unfoldable pub is_truthy : Value → Bool
is_truthy null = false
is_truthy (bool b) = b
is_truthy (int (pos n)) = not (n == 0)
is_truthy (int (negsuc n)) = true
is_truthy (float x) = not (str_eq x "0.0" || str_eq x "-0.0")
is_truthy (str s) = not (str_eq s "")
is_truthy (list nil) = false
is_truthy (list (cons v vs)) = true
is_truthy (tuple nil) = false
is_truthy (tuple (cons v vs)) = true
is_truthy (dict end) = false
is_truthy (dict (field k v d)) = true
