-- ===== src/Bridge/Rewrite.antt =====
-- crates/cxs-bridge/src/lib.rs: `rewrite_client_message` and its helpers on objects.
pub mod Environments
use codex_shuttle.Prelude.{
  ℕ, String, Bool, true, false, List, [], ◌∷◌, Option, none, some, ◌==◌, string_eq, if◌then◌else◌,
  Result, ok, err, ◌>>=◌, or_fail,
}
use codex_shuttle.Json.{
  Value, Fields, null, boolean, string, array, object, nil, item, end, field, get, get_str,
  get_field, then_str, insert_field, remove_field, as_object, Codec,
}
use codex_shuttle.Core.Profile.{Profile}
use codex_shuttle.Bridge.Errors.{
  Fallible, invalid_client_json, initialize_without_id, not_an_object, thread_start_without_cwd,
  field_not_an_object,
}

-- The object under a field, where a missing field and null count as the empty object.
unfoldable pub entry_object : Option Value → String → Fallible Fields
entry_object none name = ok end
entry_object (some null) name = ok end
entry_object (some (object fs)) name = ok fs
entry_object (some _) name = err (field_not_an_object name)

unfoldable pub object_field_in : String → Fields → Fallible Fields
unfolding entry_object
object_field_in name fs = entry_object (get_field name fs) name

-- `object_field` with what is done to the object that it lends: the changed object is put back.
unfoldable pub with_object_field : String → (Fields → Fallible Fields) → Value → Fallible Value
unfolding object_field_in
with_object_field name f message = do
  fs ← or_fail (as_object message) not_an_object
  inner ← object_field_in name fs
  inner' ← f inner
  ok (object (insert_field name (object inner') fs))

-- The value that `set_environment` inserts.
unfoldable pub environments : Profile → String → Value
environments profile cwd = array (
    item
      (object (
        field "cwd" (string cwd) (
          field "environmentId" (string profile.environment_id)
            (field "runtimeWorkspaceRoots" (array (item (string cwd) nil)) end))))
      nil)

unfoldable pub set_environment : Profile → String → Fields → Fields
set_environment profile cwd params = insert_field "environments" (environments profile cwd) params

-- `params.get("cwd").and_then(Value::as_str)`
unfoldable pub cwd_of : Fields → Option String
cwd_of params = then_str (get_field "cwd" params)

unfoldable pub allow_experimental : Fields → Fallible Fields
unfolding object_field_in
allow_experimental params = do
  capabilities ← object_field_in "capabilities" params
  let capabilities' = insert_field "experimentalApi" (boolean true) capabilities
  ok (insert_field "capabilities" (object capabilities') params)

unfoldable pub rewrite_thread_start : Profile → Fields → Fallible Fields
unfolding set_environment cwd_of
rewrite_thread_start profile params = do
  cwd ← or_fail (cwd_of params) thread_start_without_cwd
  ok (set_environment profile cwd params)

unfoldable pub rewrite_turn_start : Profile → Fields → Fallible Fields
unfolding set_environment cwd_of
rewrite_turn_start profile params = elim (cwd_of params) [
  | some cwd ↦ ok (set_environment profile cwd params)
  | none ↦ ok (remove_field "environments" params)
]

pub data Method : Type 0 where
  initialize thread_start turn_start thread_list : Method
  other : Method

-- The `match` on the method's text, with the methods that the relays tell apart.
unfoldable pub method_of : Option String → Method
method_of none = other
method_of (some m) =
    if m == "initialize"
    then initialize
    else if m == "thread/start"
    then thread_start
    else if m == "turn/start"
    then turn_start
    else if m == "thread/list"
    then thread_list
    else other

-- The rewritten message, and the initialize id as it stands afterwards.
unfoldable pub rewrite_method :
    Method → Profile → Option Value → Value → Fallible (Value × Option Value)
unfolding with_object_field allow_experimental rewrite_thread_start rewrite_turn_start
rewrite_method initialize profile id message = do
  new_id ← or_fail (get "id" message) initialize_without_id
  message' ← with_object_field "params" allow_experimental message
  ok (message', some new_id)
rewrite_method thread_start profile id message = do
  message' ← with_object_field "params" (rewrite_thread_start profile) message
  ok (message', id)
rewrite_method turn_start profile id message = do
  message' ← with_object_field "params" (rewrite_turn_start profile) message
  ok (message', id)
rewrite_method _ profile id message = ok (message, id)

unfoldable pub rewrite_value : Profile → Option Value → Value → Fallible (Value × Option Value)
unfolding rewrite_method method_of
rewrite_value profile id message =
    rewrite_method (method_of (get_str "method" message)) profile id message

unfoldable pub rewrite_client_message :
    Codec → Profile → Option Value → String → Fallible (String × Option Value)
unfolding rewrite_value
rewrite_client_message codec profile id line = do
  message ← or_fail (codec.decode line) invalid_client_json
  rewritten ← rewrite_value profile id message
  ok (codec.encode rewritten.0, rewritten.1)
