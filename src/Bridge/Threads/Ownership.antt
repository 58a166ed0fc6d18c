-- ===== src/Bridge/Threads/Ownership.antt =====
-- `filter_thread_list_response` and `record_owned_thread` with an enabled scope.
use text.Mathlib.TextEquality.{eq_iff}
use codex_shuttle.Prelude.{
  String, ◌≡◌, refl, ap, ◌∙◌, ◌⊎◌, inl, inr, Bool, true, false, not, ◌||◌, List, [], ◌∷◌, Option,
  none, some, arith, ◌==◌, string_eq, if◌then◌else◌, ok, Bool-cases, Option-cases,
}
use codex_shuttle.Json.{
  Value, Items, Fields, null, array, object, nil, item, get_field, insert_field, get_str,
}
use codex_shuttle.Json.Laws.{get_field-insert}
use codex_shuttle.Core.Names.{validate_thread_id}
use codex_shuttle.Core.Routing.{contains}
use codex_shuttle.Core.Scope.{SessionScope, insert_id, record_thread, contains-insert_id}
use codex_shuttle.Bridge.Threads.{
  SessionScopeHandle, started_thread, recorded, record_in_scope, record_owned_thread, is_owned,
  retain, retain_value, filter_result, filter_in_scope, filter_thread_list_response,
}

-- The profile's threads: those with an id that stands in the list.
abbrev pub Listed : List String → String → Type 0
Listed [] id = ⊥
Listed (known ∷ ids) id = (known ≡ id) ⊎ Listed ids id

abbrev pub IsOwned : List String → Value → Type 0
IsOwned ids v = (id : String) × (get_str "id" v ≡ some id) × Listed ids id

-- The owned items of an array, each once and in their order, and no other.
pub data OwnedOf (ids : List String) : Items → Items → Type 0 where
  nothing : OwnedOf ids nil nil
  shown_item :
      (v : Value) (vs ws : Items)
      → IsOwned ids v
      → OwnedOf ids vs ws
      → OwnedOf ids (item v vs) (item v ws)
  hidden_item :
      (v : Value) (vs ws : Items) → ¬ IsOwned ids v → OwnedOf ids vs ws → OwnedOf ids (item v vs) ws

contains-Listed : (ids : List String) (id : String) → contains ids id ≡ true → Listed ids id
unfolding contains
contains-Listed [] id h = cc
contains-Listed (known ∷ ids) id h = elim (Bool-cases (known == id)) [
  | inl here ↦ inl ((eq_iff known id).0 here)
  | inr other ↦ inr (contains-Listed ids id (ground arith))
]

Listed-contains : (ids : List String) (id : String) → Listed ids id → contains ids id ≡ true
unfolding contains
Listed-contains [] id h = elim h [ ]
Listed-contains (known ∷ ids) id (inl here) = rw ((eq_iff known id).1 here) refl
Listed-contains (known ∷ ids) id (inr later) = rw (Listed-contains ids id later) (ground arith)

is_owned-IsOwned : (ids : List String) (v : Value) → is_owned ids v ≡ true → IsOwned ids v
unfolding is_owned
is_owned-IsOwned ids v h = elim (Option-cases (get_str "id" v)) [
  | inl missing ↦ cc (rw (is_owned, missing) at h)
  | inr (id, found) ↦ (id, found, contains-Listed ids id (rw (is_owned, found) at h))
]

IsOwned-is_owned : (ids : List String) (v : Value) → IsOwned ids v → is_owned ids v ≡ true
unfolding is_owned
IsOwned-is_owned ids v (id, found, listed) = rw (is_owned, found) (Listed-contains ids id listed)

retain-OwnedOf : (ids : List String) (xs : Items) → OwnedOf ids xs (retain ids xs)
unfolding retain
retain-OwnedOf ids nil = nothing
retain-OwnedOf ids (item v vs) = elim (Bool-cases (is_owned ids v)) [
  | inl e ↦
      rw (retain, e)
        (shown_item v vs (retain ids vs) (is_owned-IsOwned ids v e) (retain-OwnedOf ids vs))
  | inr e ↦
      rw (retain, e)
        (hidden_item v vs (retain ids vs) (λ own. cc (e, IsOwned-is_owned ids v own))
          (retain-OwnedOf ids vs))
]

-- What a list field shows: an array keeps the owned threads, any other value stays.
abbrev pub shown : List String → Option Value → Option Value
shown ids (some (array xs)) = some (array (retain ids xs))
shown ids o = o

retain_value_lem :
    (ids : List String) (o : Option Value) (name k : String) (result : Fields)
    → get_field name result ≡ o
    → get_field k (retain_value ids o name result)
      ≡ (if name == k then shown ids o else get_field k result)
unfolding retain_value
retain_value_lem ids (some (array xs)) name k result e =
    get_field-insert name k (array (retain ids xs)) result
retain_value_lem ids none name k result e = ground (arith, eq_iff name k)
retain_value_lem ids (some null) name k result e = ground (arith, eq_iff name k)
retain_value_lem ids (some _) name k result e = ground (arith, eq_iff name k)

-- The two fields that may hold the list.
abbrev pub is_list_field : String → Bool
is_list_field k = "data" == k || "threads" == k

filter_result_lem :
    (ids : List String) (k : String) (result : Fields)
    → get_field k (filter_result ids result)
      ≡ (if is_list_field k then shown ids (get_field k result) else get_field k result)
unfolding filter_result
filter_result_lem ids k result =
    let result₁ = retain_value ids (get_field "data" result) "data" result in
    ground (
      arith,
      eq_iff "data" k,
      eq_iff "threads" k,
      retain_value_lem ids (get_field "threads" result₁) "threads" k result₁ refl,
      retain_value_lem ids (get_field "data" result) "data" k result refl,
      retain_value_lem ids (get_field "data" result) "data" "threads" result refl,
    )

-- The list fields of a filtered result hold the owned items of the original ones.
abbrev pub ShowsOwned : List String → Fields → Fields → Type 0
ShowsOwned ids result result' =
    (k : String) (xs : Items)
    → is_list_field k ≡ true
    → get_field k result ≡ some (array xs)
    → (ys : Items) × (get_field k result' ≡ some (array ys)) × OwnedOf ids xs ys

filter_result-ShowsOwned :
    (ids : List String) (result : Fields) → ShowsOwned ids result (filter_result ids result)
filter_result-ShowsOwned ids result k xs l e =
    (retain ids xs, filter_result_lem ids k result ∙ rw l (ap (shown ids) e), retain-OwnedOf ids xs)

module _ (handle : SessionScopeHandle) (scope : SessionScope) where
  -- With a scope that is enabled, in a lock that is not poisoned, the arrays under "data" and
  -- "threads" of a response's result hold exactly those of their items that have the id of an owned
  -- thread, each as often as before and in the same order, and every other field of the result and
  -- of the response is as the App Server sent it.
  pub filter_thread_list_response-ShowsOwned :
      (fs result : Fields)
      → handle.poisoned ≡ false
      → handle.scope ≡ some scope
      → scope.enabled ≡ true
      → get_field "result" fs ≡ some (object result)
      → (result' : Fields) × (filter_thread_list_response handle (object fs)
          ≡ object (insert_field "result" (object result') fs))
        × ShowsOwned scope.thread_ids result result'
        × ((k : String) → is_list_field k ≡ false → get_field k result' ≡ get_field k result)
  unfolding filter_thread_list_response
  filter_thread_list_response-ShowsOwned fs result p s n e = (
    filter_result scope.thread_ids result,
    rw (p, s) (rw (n, e, filter_in_scope)),
    filter_result-ShowsOwned scope.thread_ids result,
    λ k l. filter_result_lem scope.thread_ids k result ∙ rw l,
  )

  -- With a scope that is enabled, in a lock that is not poisoned, a response that tells of a
  -- started thread with a valid id makes the profile its owner: the scope then holds the new id
  -- and all that it held, and it is to be saved exactly if the id was new.
  pub record_owned_thread_lem :
      (response : Value) (id : String)
      → handle.poisoned ≡ false
      → handle.scope ≡ some scope
      → scope.enabled ≡ true
      → started_thread response ≡ some id
      → validate_thread_id id ≡ ok tt
      → (scope' : SessionScope) × (record_owned_thread handle response
          ≡ (record handle { scope = some scope' }, not (contains scope.thread_ids id)))
        × (scope'.enabled ≡ true)
        × ((s : String) → contains scope'.thread_ids s ≡ (id == s || contains scope.thread_ids s))
  unfolding record_owned_thread record_in_scope recorded record_thread
  record_owned_thread_lem response id p s n started valid = (
    record scope { thread_ids = insert_id id scope.thread_ids },
    rw (p, started, s) (rw n (rw valid (ground arith))),
    n,
    λ t. contains-insert_id id t scope.thread_ids,
  )

-- Nothing changes for a profile without a scope, with its scope disabled, or behind a poisoned lock,
-- whatever the response is.
pub filter_thread_list_response_off :
    (handle : SessionScopeHandle) (response : Value)
    → (handle.poisoned ≡ true)
      ⊎ ((handle.scope ≡ none)
          ⊎ ((scope : SessionScope) × (handle.scope ≡ some scope) × (scope.enabled ≡ false)))
    → filter_thread_list_response handle response ≡ response
unfolding filter_thread_list_response filter_in_scope
filter_thread_list_response_off handle response (inl p) = rw p
filter_thread_list_response_off handle (object fs) (inr (inr (scope, s, n))) = ground arith
filter_thread_list_response_off handle null (inr (inr (scope, s, n))) = ground arith
filter_thread_list_response_off handle _ (inr (inr (scope, s, n))) = ground arith
filter_thread_list_response_off handle (object fs) (inr (inl e)) = ground arith
filter_thread_list_response_off handle null (inr (inl e)) = ground arith
filter_thread_list_response_off handle _ (inr (inl e)) = ground arith
