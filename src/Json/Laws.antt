-- ===== src/Json/Laws.antt =====
-- Laws of the JSON accessors: maps in `if` form, and equality of values.
use text.Mathlib.TextEquality.{eq_iff, path_by_compare}
use codex_shuttle.Prelude.{
  String, ◌≡◌, refl, ◌↔◌, Bool, true, ◌&&◌, none, some, arith, Eq, ◌==◌, nat_eq, string_eq,
  if◌then◌else◌,
}
use codex_shuttle.Json.{
  Value, Items, Fields, Number, null, boolean, number, string, array, object, nil, item, end, field,
  pos_int, neg_int, float, get_field, insert_field, remove_field, value_eq, items_eq, fields_eq,
  number_eq, bool_eq,
}

-- A write is read back at its own key, and no other key changes.
pub get_field-insert :
    (k j : String) (v : Value) (fs : Fields)
    → get_field j (insert_field k v fs) ≡ (if k == j then some v else get_field j fs)
unfolding get_field insert_field
get_field-insert k j v end = refl
get_field-insert k j v (field i w fs) =
    ground
      (arith, eq_iff k j, eq_iff i k, eq_iff i j, path_by_compare i k, get_field-insert k j v fs)

pub get_field-remove :
    (k j : String) (fs : Fields)
    → get_field j (remove_field k fs) ≡ (if k == j then none else get_field j fs)
unfolding get_field remove_field
get_field-remove k j end = ground arith
get_field-remove k j (field i w fs) =
    ground (arith, eq_iff k j, eq_iff i k, eq_iff i j, get_field-remove k j fs)

and_left : (x y : Bool) → (x && y) ≡ true → x ≡ true
and_left x y h = ground arith

and_right : (x y : Bool) → (x && y) ≡ true → y ≡ true
and_right x y h = ground arith

and_intro : (x y : Bool) → x ≡ true → y ≡ true → (x && y) ≡ true
and_intro x y h k = ground arith

bool_eq_iff : (a b : Bool) → (bool_eq a b ≡ true) ↔ (a ≡ b)
unfolding bool_eq
bool_eq_iff a b = ground arith

number_eq_iff : (a b : Number) → (number_eq a b ≡ true) ↔ (a ≡ b)
unfolding number_eq
number_eq_iff (pos_int a) (pos_int b) = ground arith
number_eq_iff (neg_int a) (neg_int b) = ground arith
number_eq_iff (float a) (float b) = ground arith
number_eq_iff _ _ = ground arith

module _ (x y : Bool) where
  item_case :
      (a b : Value) (s t : Items)
      → (x ≡ true) ↔ (a ≡ b)
      → (y ≡ true) ↔ (s ≡ t)
      → ((x && y) ≡ true) ↔ (item a s ≡ item b t)
  item_case a b s t h k = (
    λ e. cc (h.0 (and_left x y e), k.0 (and_right x y e)),
    λ e. and_intro x y (h.1 (cc e)) (k.1 (cc e)),
  )

  field_case :
      (i j : String) (a b : Value) (s t : Fields)
      → (x ≡ true) ↔ (a ≡ b)
      → (y ≡ true) ↔ (s ≡ t)
      → ((i == j && (x && y)) ≡ true) ↔ (field i a s ≡ field j b t)
  field_case i j a b s t h k = (
    λ e.
        let r = and_right (i == j) (x && y) e in
        cc (
          (eq_iff i j).0 (and_left (i == j) (x && y) e),
          h.0 (and_left x y r),
          k.0 (and_right x y r),
        ),
    λ e.
        and_intro (i == j) (x && y) ((eq_iff i j).1 (cc e))
          (and_intro x y (h.1 (cc e)) (k.1 (cc e))),
  )

mutual
  unfolding value_eq

  value_eq_iff_lem : (a b : Value) → (value_eq a b ≡ true) ↔ (a ≡ b)
  value_eq_iff_lem null null = ground arith
  value_eq_iff_lem (boolean a) (boolean b) = ground (arith, bool_eq_iff a b)
  value_eq_iff_lem (number a) (number b) = ground (arith, number_eq_iff a b)
  value_eq_iff_lem (string a) (string b) = ground (arith, eq_iff a b)
  value_eq_iff_lem (array a) (array b) = ground (arith, items_eq_iff a b)
  value_eq_iff_lem (object a) (object b) = ground (arith, fields_eq_iff a b)
  value_eq_iff_lem _ _ = ground arith

  items_eq_iff : (a b : Items) → (items_eq a b ≡ true) ↔ (a ≡ b)
  items_eq_iff nil nil = ground arith
  items_eq_iff (item a s) (item b t) =
      item_case _ _ a b s t (value_eq_iff_lem a b) (items_eq_iff s t)
  items_eq_iff _ _ = ground arith

  fields_eq_iff : (a b : Fields) → (fields_eq a b ≡ true) ↔ (a ≡ b)
  fields_eq_iff end end = ground arith
  fields_eq_iff (field j a s) (field k b t) =
      field_case _ _ j k a b s t (value_eq_iff_lem a b) (fields_eq_iff s t)
  fields_eq_iff _ _ = ground arith

pub value_eq_iff : (a b : Value) → (value_eq a b ≡ true) ↔ (a ≡ b)
value_eq_iff a b = value_eq_iff_lem a b

instance abbrev pub value_eq_instance : Eq Value
value_eq_instance = record { equal = value_eq; equal_iff = value_eq_iff }
