-- ===== src/Json.antt =====
-- The values of `json.loads`, and `json.dumps`. An object's fields are in the order of the text and
-- no key stands twice; a float is held as its `repr`.
pub mod Dumps
use hermes_auto.Prelude.{
  ℕ, zero, suc, ◌+◌, String, Bool, true, false, Option, none, some, ◌==◌, if◌then◌else◌,
}

-- `negsuc n` is -(n + 1).
pub data ℤ : Type 0 where
  pos : ℕ → ℤ
  negsuc : ℕ → ℤ

mutual
  pub data Items : Type 0 where
    nil : Items
    cons : Value → Items → Items

  pub data Value : Type 0 where
    null : Value
    bool : Bool → Value
    int : ℤ → Value
    float : String → Value
    str : String → Value
    arr : Items → Value
    obj : Fields → Value

  pub data Fields : Type 0 where
    end : Fields
    field : String → Value → Fields → Fields

-- `fields.get(key)`
unfoldable pub get : String → Fields → Option Value
get k end = none
get k (field j v fs) = if j == k then some v else get k fs

-- `key in fields`
unfoldable pub has_key : String → Fields → Bool
has_key k end = false
has_key k (field j v fs) = if j == k then true else has_key k fs

-- `fields.pop(key, None)`, without its result
unfoldable pub pop : String → Fields → Fields
pop k end = end
pop k (field j v fs) = if j == k then pop k fs else field j v (pop k fs)

-- `fields[key] = value`
unfoldable pub put : String → Value → Fields → Fields
put k v end = field k v end
put k v (field j w fs) = if j == k then field k v fs else field j w (put k v fs)

-- `len(items)`
unfoldable pub length_items : Items → ℕ
length_items nil = 0
length_items (cons v vs) = suc (length_items vs)

-- `reversed(items)`, in front of `acc`
unfoldable pub reverse_items : Items → Items → Items
reverse_items nil acc = acc
reverse_items (cons v vs) acc = reverse_items vs (cons v acc)

unfoldable pub no_fields : Fields → Bool
no_fields end = true
no_fields (field k v fs) = false

-- `type(value).__name__`
unfoldable pub type_name : Value → String
type_name null = "NoneType"
type_name (bool b) = "bool"
type_name (int n) = "int"
type_name (float s) = "float"
type_name (str s) = "str"
type_name (arr vs) = "list"
type_name (obj fs) = "dict"
