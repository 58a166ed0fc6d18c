-- ===== src/Bridge/Registration.antt =====
-- crates/cxs-bridge/src/lib.rs: `EnvironmentRegistration`, the state machine that registers the
-- remote execution environment with the local App Server before client traffic is let through.
pub mod Polling
use Prim.Native.String.{◌++◌}
use codex_shuttle.Prelude.{
  ℕ, suc, ◌+◌, ◌≡◌, refl, String, Bool, true, false, ◌&&◌, List, [], ◌∷◌, Option, none, some, ◌==◌,
  string_eq, ltb, if◌then◌else◌, ok, err, ◌>>=◌, or_fail,
}
use codex_shuttle.Prelude.Text.{decimal}
use codex_shuttle.Json.{
  Value, Fields, string, number, object, end, field, pos_int, get, get_str, then_str, pointer,
}
use codex_shuttle.Json.Laws.{value_eq_instance}
use codex_shuttle.Core.Profile.{Profile}
use codex_shuttle.Bridge.Errors.{
  Fallible, initialize_failed, add_failed, status_failed, status_missing, status_outside_polling,
  environment_not_ready,
}

pub data EnvironmentPhase : Type 0 where
  waiting_for_initialize registering : EnvironmentPhase
  polling : ℕ → EnvironmentPhase
  ready : EnvironmentPhase

pub record EnvironmentRegistration : Type 0 where
  pub initialize_id : Option Value
  pub phase : EnvironmentPhase
  pub add_request_id : String
  pub status_request_id : String

unfoldable pub new : Profile → EnvironmentRegistration
new profile = record {
  initialize_id = none;
  phase = waiting_for_initialize;
  add_request_id = "cxs/" ++ profile.environment_id ++ "/environment-add";
  status_request_id = "cxs/" ++ profile.environment_id ++ "/environment-status";
}

unfoldable pub is_some {ℓ} : {A : Type ℓ} → Option A → Bool
is_some none = false
is_some (some _) = true

unfoldable pub has_initialize_request : EnvironmentRegistration → Bool
unfolding is_some
has_initialize_request r = is_some r.initialize_id

unfoldable pub phase_is_ready : EnvironmentPhase → Bool
phase_is_ready ready = true
phase_is_ready _ = false

unfoldable pub is_ready : EnvironmentRegistration → Bool
unfolding phase_is_ready
is_ready r = phase_is_ready r.phase

unfoldable pub is_waiting : EnvironmentPhase → Bool
is_waiting waiting_for_initialize = true
is_waiting _ = false

-- `message.get("id") == Some(id)`
unfoldable pub has_id : Value → Value → Bool
has_id message id = elim (get "id" message) [ none ↦ false | some v ↦ v == id ]

unfoldable pub is_initialize_response : EnvironmentRegistration → Value → Bool
unfolding is_waiting
is_initialize_response r message =
    is_waiting r.phase && elim r.initialize_id [ none ↦ false | some id ↦ has_id message id ]

-- `json!` of a request, its keys sorted.
abbrev pub request : String → String → Fields → Value
request id method params =
    object
      (field "id" (string id) (field "method" (string method) (field "params" (object params) end)))

unfoldable pub environment_add_request : String → Profile → Value
environment_add_request id profile = request id "environment/add" (
    field "connectTimeoutMs" (number (pos_int 10000)) (
      field "environmentId" (string profile.environment_id) (
        field "execServerUrl" (string ("ws://127.0.0.1:" ++ decimal profile.local_exec_port)) end)))

unfoldable pub environment_status_request : String → Profile → Value
environment_status_request id profile =
    request id "environment/status" (field "environmentId" (string profile.environment_id) end)

unfoldable pub has_error : Value → Bool
unfolding is_some
has_error message = is_some (get "error" message)

unfoldable pub begin_registration :
    EnvironmentRegistration → Value → Profile → Fallible (EnvironmentRegistration × Value)
begin_registration r message profile =
    if has_error message
    then err initialize_failed
    else ok (record r { phase = registering }, environment_add_request r.add_request_id profile)

-- `message.get("id").and_then(Value::as_str) == Some(id)`
unfoldable pub has_str_id : Value → String → Bool
has_str_id message id = elim (get_str "id" message) [ none ↦ false | some s ↦ s == id ]

unfoldable pub is_add_response : EnvironmentRegistration → Value → Bool
is_add_response r message = has_str_id message r.add_request_id

unfoldable pub begin_status_poll :
    EnvironmentRegistration → Value → Profile → Fallible (EnvironmentRegistration × Value)
begin_status_poll r message profile =
    if has_error message
    then err add_failed
    else ok (record r { phase = polling 1 }, environment_status_request r.status_request_id profile)

unfoldable pub is_status_response : EnvironmentRegistration → Value → Bool
is_status_response r message = has_str_id message r.status_request_id

unfoldable pub environment_status_ready : Value → Fallible Bool
environment_status_ready message = if has_error message then err status_failed else do
  status ← or_fail (then_str (pointer ("result" ∷ "status" ∷ []) message)) status_missing
  ok (status == "ready")

-- The poll that follows a status other than ready.
unfoldable pub poll_again :
    EnvironmentPhase
    → EnvironmentRegistration
    → Profile
    → Fallible (EnvironmentRegistration × Option Value)
poll_again (polling attempts) r profile =
    if ltb 200 (attempts + 1)
    then err environment_not_ready
    else ok (
      record r { phase = polling (attempts + 1) },
      some (environment_status_request r.status_request_id profile),
    )
poll_again _ r profile = err status_outside_polling

-- `none` is that the environment is ready; otherwise the next request.
unfoldable pub handle_status_response :
    EnvironmentRegistration → Value → Profile → Fallible (EnvironmentRegistration × Option Value)
handle_status_response r message profile = do
  now ← environment_status_ready message
  if now then ok (record r { phase = ready }, none) else poll_again r.phase r profile
