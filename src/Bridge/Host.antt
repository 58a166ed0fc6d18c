-- ===== src/Bridge/Host.antt =====
-- crates/cxs-bridge/src/lib.rs: what of the remote Host App Server's messages reaches the client.
pub mod Isolation
use text.Mathlib.Text.{starts_with}
use Prim.Native.String.{◌++◌}
use Prim.Native.Char.{Char, code}
use codex_shuttle.Prelude.{
  ℕ, String, Bool, true, false, not, ◌&&◌, ◌||◌, List, [], ◌∷◌, Option, none, some, ◌==◌, nat_eq,
  string_eq, if◌then◌else◌, ok, err, ◌>>=◌, or_fail,
}
use codex_shuttle.Json.{
  Value, Fields, string, object, get, get_str, as_str, as_object, get_field, insert_field,
}
use codex_shuttle.Core.Profile.{Profile}
use codex_shuttle.Core.Routing.{is_host_request, is_host_notification, required_initialize_fields}
use codex_shuttle.Bridge.Errors.{
  Fallible, host_initialize_failed, local_result_missing, host_result_missing,
}
use codex_shuttle.Bridge.Registration.{has_error}

pub data RequestRoute : Type 0 where
  local host thread_start : RequestRoute

unfoldable pub request_route : Option String → RequestRoute
request_route none = local
request_route (some method) =
    if method == "thread/start"
    then thread_start
    else if is_host_request method
    then host
    else local

unfoldable pub internal_prefix : Profile → String
internal_prefix profile = "cxs/" ++ profile.environment_id ++ "/thread-metadata/"

unfoldable pub host_initialize_id : Profile → String
host_initialize_id profile = "cxs/" ++ profile.environment_id ++ "/host-initialize"

-- An id that the bridge gave to a request of its own.
unfoldable pub is_internal : Profile → String → Bool
is_internal profile id =
    id == host_initialize_id profile || starts_with id (internal_prefix profile)

unfoldable pub str_is_internal : Profile → Option String → Bool
unfolding is_internal
str_is_internal profile none = false
str_is_internal profile (some id) = is_internal profile id

unfoldable pub is_notification : Option String → Bool
is_notification none = false
is_notification (some method) = is_host_notification method

unfoldable pub id_allowed : Profile → Option Value → Bool
unfolding str_is_internal
id_allowed profile none = false
id_allowed profile (some id) = not (str_is_internal profile (as_str id))

unfoldable pub host_message_allowed : Value → Profile → Bool
unfolding id_allowed is_notification
host_message_allowed message profile =
    id_allowed profile (get "id" message) || is_notification (get_str "method" message)

-- `value.get_mut(field).and_then(Value::as_object_mut)`
unfoldable pub object_in : String → Value → Option Fields
object_in name v = elim (get name v) [ none ↦ none | some w ↦ as_object w ]

-- The fields that are there in `from`, copied over those of `into`.
unfoldable pub copy_fields : List String → Fields → Fields → Fields
copy_fields [] from into = into
copy_fields (k ∷ ks) from into = elim (get_field k from) [
  | none ↦ copy_fields ks from into
  | some v ↦ copy_fields ks from (insert_field k v into)
]

-- Back into the message that `get_mut` borrowed it from.
unfoldable pub put_object : String → Fields → Value → Value
put_object name fs (object m) = object (insert_field name (object fs) m)
put_object name fs v = v

-- `trim_end_matches('/')`
unfoldable pub trim_slashes : String → String
trim_slashes String.[] = ""
trim_slashes (String.◌∷◌ c s) =
    let rest = trim_slashes s in if rest == "" && code c == b'/' then "" else String.◌∷◌ c rest

unfoldable pub with_home : Option String → Fields → Fields
unfolding trim_slashes
with_home none result = result
with_home (some home) result =
    insert_field "codexHome" (string (trim_slashes home ++ "/.codex")) result

unfoldable pub merge_initialize_response : Value → Value → Option String → Fallible Value
unfolding object_in copy_fields put_object with_home
merge_initialize_response from_local from_host remote_home =
    if has_error from_host then err host_initialize_failed else do
      local_result ← or_fail (object_in "result" from_local) local_result_missing
      host_result ← or_fail (object_in "result" from_host) host_result_missing
      let merged = copy_fields required_initialize_fields host_result local_result
      ok (put_object "result" (with_home remote_home merged) from_local)
