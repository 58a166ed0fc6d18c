-- ===== src/Bridge/Host/Isolation.antt =====
-- `host_message_allowed` on the bridge's own ids, and the copying of fields.
use Prim.Native.String.{◌++◌}
use text.Mathlib.TextEquality.{eq_iff}
use text.Mathlib.TextPositions.{starts_with-append}
use codex_shuttle.Prelude.{
  ◌≡◌, refl, ◌∙◌, inl, inr, String, true, false, List, [], ◌∷◌, Option, none, some, arith, ◌==◌,
  string_eq, if◌then◌else◌, Option-cases,
}
use codex_shuttle.Json.{
  Value, Fields, object, get, get_str, as_str, then_str, get_field, insert_field,
}
use codex_shuttle.Json.Laws.{get_field-insert}
use codex_shuttle.Core.Profile.{Profile}
use codex_shuttle.Core.Routing.{contains}
use codex_shuttle.Bridge.Host.{
  internal_prefix, is_internal, str_is_internal, id_allowed, is_notification, host_message_allowed,
  object_in, copy_fields, put_object,
}

-- A message of the host whose id begins as the ids of the bridge's metadata requests, and of the
-- reads made for one, is let through to the client only if it is one of the host's notifications.
pub internal_kept :
    (message : Value) (profile : Profile) (rest : String)
    → get_str "id" message ≡ some (internal_prefix profile ++ rest)
    → host_message_allowed message profile ≡ is_notification (get_str "method" message)
unfolding host_message_allowed id_allowed str_is_internal is_internal get_str then_str
internal_kept message profile rest h = elim (Option-cases (get "id" message)) [
  | inl e ↦ rw e
  | inr (v, e) ↦
      let s : as_str v ≡ some (internal_prefix profile ++ rest) = rw e at h in
      rw e (rw s (ground (arith, starts_with-append (internal_prefix profile) rest)))
]

-- A message of the host with an id that is none of the bridge's own is let through to the client.
pub foreign_passed :
    (message id : Value) (profile : Profile)
    → get "id" message ≡ some id
    → ((s : String) → as_str id ≡ some s → is_internal profile s ≡ false)
    → host_message_allowed message profile ≡ true
unfolding host_message_allowed id_allowed str_is_internal
foreign_passed message id profile h f = elim (Option-cases (as_str id)) [
  | inl e ↦ rw h (rw e)
  | inr (s, e) ↦ rw h (rw e (rw (f s e)))
]

-- What a copy of fields leaves: those of the list that `from` has, and otherwise those of `into`.
abbrev pub first_of_two : Option Value → Option Value → Option Value
first_of_two none o = o
first_of_two (some v) o = some v

pub copy_fields_lem :
    (ks : List String) (j : String) (from into : Fields)
    → get_field j (copy_fields ks from into) ≡ (
        if contains ks j
        then first_of_two (get_field j from) (get_field j into)
        else get_field j into)
unfolding copy_fields contains
copy_fields_lem [] j from into = refl
copy_fields_lem (k ∷ ks) j from into = elim (Option-cases (get_field k from)) [
  | inl e ↦ rw (e, copy_fields) (copy_fields_lem ks j from into ∙ ground (arith, eq_iff k j, e))
  | inr (v, e) ↦
      rw (e, copy_fields)
        (copy_fields_lem ks j from (insert_field k v into)
          ∙ ground (arith, eq_iff k j, e, get_field-insert k j v into))
]

pub put_object_lem :
    (name k : String) (fs : Fields) (v : Value) {old : Fields}
    → object_in name v ≡ some old
    → get k (put_object name fs v) ≡ (if name == k then some (object fs) else get k v)
unfolding put_object object_in get
put_object_lem name k fs (object m) h = get_field-insert name k (object fs) m
put_object_lem name k fs Value.null h = cc
put_object_lem name k fs _ h = cc
