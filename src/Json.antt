-- ===== src/Json.antt =====
-- JSON values as the crates use them (`serde_json::Value`): the constructors, the accessors that the
-- sources call, and equality. An object is a map by sorted keys; reading and writing JSON text is
-- not in the repository, and is the record `Codec`, a parameter of the code that calls it.
pub mod Laws
use Prim.Native.Nat.{Ordering}
use Prim.Native.String.{compare}
use codex_shuttle.Prelude.{
  ℕ, String, Bool, true, false, ◌&&◌, List, [], ◌∷◌, Option, none, some, ◌==◌, nat_eq, string_eq,
  if◌then◌else◌,
}

-- A number as it is told apart from others: a `u64`, a negative `i64` by its absolute value, or
-- the bits of an `f64`.
pub data Number : Type 0 where
  pos_int : ℕ → Number
  neg_int : ℕ → Number
  float : ℕ → Number

mutual
  pub data Value : Type 0 where
    null : Value
    boolean : Bool → Value
    number : Number → Value
    string : String → Value
    array : Items → Value
    object : Fields → Value

  pub data Items : Type 0 where
    nil : Items
    item : Value → Items → Items

  pub data Fields : Type 0 where
    end : Fields
    field : String → Value → Fields → Fields

-- `Map::get`
unfoldable pub get_field : String → Fields → Option Value
get_field k end = none
get_field k (field j v fs) = if j == k then some v else get_field k fs

-- `Map::insert`
unfoldable pub insert_field : String → Value → Fields → Fields
insert_field k v end = field k v end
insert_field k v (field j w fs) = elim (compare j k) [
  | Ordering.eq ↦ field k v fs
  | Ordering.gt ↦ field k v (field j w fs)
  | Ordering.lt ↦ field j w (insert_field k v fs)
]

-- `Map::remove`
unfoldable pub remove_field : String → Fields → Fields
remove_field k end = end
remove_field k (field j v fs) =
    let rest = remove_field k fs in if j == k then rest else field j v rest

-- `Value::get` at a string
unfoldable pub get : String → Value → Option Value
get k (object fs) = get_field k fs
get k _ = none

-- `Value::as_str`
unfoldable pub as_str : Value → Option String
as_str (string s) = some s
as_str _ = none

-- `Value::as_object`
unfoldable pub as_object : Value → Option Fields
as_object (object fs) = some fs
as_object _ = none

-- `Value::as_array`
unfoldable pub as_array : Value → Option Items
as_array (array xs) = some xs
as_array _ = none

-- `.and_then(Value::as_str)`
unfoldable pub then_str : Option Value → Option String
unfolding as_str
then_str none = none
then_str (some v) = as_str v

-- `message.get(k).and_then(Value::as_str)`
unfoldable pub get_str : String → Value → Option String
unfolding get then_str
get_str k v = then_str (get k v)

-- `Value::pointer` at keys that are no array indices
unfoldable pub pointer : List String → Value → Option Value
unfolding get
pointer [] v = some v
pointer (k ∷ ks) v = elim (get k v) [ none ↦ none | some w ↦ pointer ks w ]

-- `value[k] = w` for an object or null; any other value panics.
unfoldable pub set_index : String → Value → Value → Option Value
unfolding insert_field
set_index k w null = some (object (field k w end))
set_index k w (object fs) = some (object (insert_field k w fs))
set_index k w _ = none

unfoldable pub number_eq : Number → Number → Bool
number_eq (pos_int a) (pos_int b) = a == b
number_eq (neg_int a) (neg_int b) = a == b
number_eq (float a) (float b) = a == b
number_eq _ _ = false

unfoldable pub bool_eq : Bool → Bool → Bool
bool_eq true b = b
bool_eq false true = false
bool_eq false false = true

unfoldable mutual
  pub value_eq : Value → Value → Bool
  value_eq null null = true
  value_eq (boolean a) (boolean b) = bool_eq a b
  value_eq (number a) (number b) = number_eq a b
  value_eq (string a) (string b) = a == b
  value_eq (array a) (array b) = items_eq a b
  value_eq (object a) (object b) = fields_eq a b
  value_eq _ _ = false

  pub items_eq : Items → Items → Bool
  items_eq nil nil = true
  items_eq (item a as') (item b bs) = value_eq a b && items_eq as' bs
  items_eq _ _ = false

  pub fields_eq : Fields → Fields → Bool
  fields_eq end end = true
  fields_eq (field j a as') (field k b bs) = (j == k) && (value_eq a b && fields_eq as' bs)
  fields_eq _ _ = false

-- `serde_json::to_string` and `serde_json::from_str` (`to_vec` and `from_slice` on the same text).
pub record Codec : Type 0 where
  pub encode : Value → String
  pub decode : String → Option Value
