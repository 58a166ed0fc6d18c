-- ===== src/Bridge/Threads.antt =====
-- crates/cxs-bridge/src/lib.rs: request ids, `record_owned_thread` and `filter_thread_list_response`.
pub mod Ownership
use codex_shuttle.Prelude.{
  ℕ, String, Bool, true, false, List, [], ◌∷◌, Option, none, some, ◌==◌, string_eq, if◌then◌else◌,
  Result, ok, err,
}
use codex_shuttle.Json.{
  Value, Items, Fields, array, object, nil, item, get, get_str, get_field, insert_field, then_str,
  pointer, Codec,
}
use codex_shuttle.Core.Names.{ThreadIdError}
use codex_shuttle.Core.Routing.{contains}
use codex_shuttle.Core.Scope.{SessionScope, insert_id, record_thread}
use codex_shuttle.Bridge.Registration.{has_error}

-- The `Arc<Mutex<Option<SessionScope>>>` that the connections of a profile share; a panic of a holder
-- poisons it.
pub record SessionScopeHandle : Type 0 where
  pub poisoned : Bool
  pub scope : Option SessionScope

-- `HashSet<String>` of the ids of pending requests, as their JSON texts.
unfoldable pub request_id_key : Codec → Value → Option String
request_id_key codec message = elim (get "id" message) [
  | none ↦ none
  | some id ↦ some (codec.encode id)
]

-- `HashSet::remove`: whether the key was there is told by `contains`.
unfoldable pub remove_id : String → List String → List String
remove_id s [] = []
remove_id s (t ∷ ts) = let rest = remove_id s ts in if t == s then rest else t ∷ rest

unfoldable pub remember_request_id : Codec → Value → List String → List String
unfolding request_id_key insert_id
remember_request_id codec message requests = elim (request_id_key codec message) [
  | none ↦ requests
  | some id ↦ insert_id id requests
]

-- Whether the message answers one of the requests, and the requests without it.
unfoldable pub take_request_id : Codec → Value → List String → Bool × List String
unfolding request_id_key remove_id
take_request_id codec message requests = elim (request_id_key codec message) [
  | none ↦ (false, requests)
  | some id ↦ (contains requests id, remove_id id requests)
]

-- The id of the thread that a successful thread/start response tells of.
unfoldable pub started_thread : Value → Option String
started_thread response =
    if has_error response
    then none
    else then_str (pointer ("result" ∷ "thread" ∷ "id" ∷ []) response)

-- What the recording of a thread leads to: the scope in memory, and whether it is to be saved. A
-- failure to save is only logged.
unfoldable pub recorded :
    SessionScope → Result ThreadIdError (Bool × SessionScope) → SessionScope × Bool
recorded scope (ok (new, scope')) = (scope', new)
recorded scope (err e) = (scope, false)

unfoldable pub record_in_scope : Option String → Option SessionScope → Option SessionScope × Bool
unfolding recorded record_thread
record_in_scope none scope = (scope, false)
record_in_scope (some id) none = (none, false)
record_in_scope (some id) (some scope) =
    if scope.enabled
    then (let (scope', save) = recorded scope (record_thread scope id) in (some scope', save))
    else (some scope, false)

unfoldable pub record_owned_thread : SessionScopeHandle → Value → SessionScopeHandle × Bool
unfolding started_thread record_in_scope
record_owned_thread handle response =
    if handle.poisoned
    then (handle, false)
    else (let (scope', save) = record_in_scope (started_thread response) handle.scope in
        (record handle { scope = scope' }, save))

-- The test of `retain`.
unfoldable pub is_owned : List String → Value → Bool
is_owned ids thread = elim (get_str "id" thread) [ none ↦ false | some id ↦ contains ids id ]

-- `Vec::retain`
unfoldable pub retain : List String → Items → Items
unfolding is_owned
retain ids nil = nil
retain ids (item v vs) = let rest = retain ids vs in if is_owned ids v then item v rest else rest

unfoldable pub retain_value : List String → Option Value → String → Fields → Fields
unfolding retain
retain_value ids (some (array xs)) name result = insert_field name (array (retain ids xs)) result
retain_value ids _ name result = result

unfoldable pub filter_result : List String → Fields → Fields
unfolding retain_value
filter_result ids result =
    let result₁ = retain_value ids (get_field "data" result) "data" result in
    retain_value ids (get_field "threads" result₁) "threads" result₁

unfoldable pub filter_in_scope : Option SessionScope → Value → Value
unfolding filter_result
filter_in_scope (some scope) (object fs) =
    if scope.enabled
    then (elim (get_field "result" fs) [
      | some (object result) ↦
          object (insert_field "result" (object (filter_result scope.thread_ids result)) fs)
      | _ ↦ object fs
    ])
    else object fs
filter_in_scope _ response = response

unfoldable pub filter_thread_list_response : SessionScopeHandle → Value → Value
unfolding filter_in_scope
filter_thread_list_response handle response =
    if handle.poisoned then response else filter_in_scope handle.scope response
