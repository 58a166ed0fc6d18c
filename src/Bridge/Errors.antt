-- ===== src/Bridge/Errors.antt =====
-- crates/cxs-bridge/src/lib.rs: the failures that end a connection, one for each `bail!`, `context`
-- or `?` whose message differs.
use codex_shuttle.Prelude.{ℕ, String, Result}

pub data BridgeError : Type 0 where
  -- the environment's registration
  initialize_failed add_failed status_failed status_missing : BridgeError
  status_outside_polling environment_not_ready : BridgeError
  -- client messages
  invalid_client_json initialize_without_id not_an_object thread_start_without_id : BridgeError
  thread_start_without_cwd : BridgeError
  field_not_an_object : String → BridgeError
  too_much_pending : BridgeError
  -- server and host messages
  invalid_server_json invalid_host_json host_disconnected host_initialize_failed : BridgeError
  local_result_missing host_result_missing metadata_disappeared read_disappeared : BridgeError
  instruction_not_base64 instruction_too_large instructions_too_large : String → BridgeError
  instruction_not_utf8 : String → BridgeError
  -- lines and handshakes
  line_too_long : ℕ → BridgeError
  disconnected_in_handshake invalid_handshake handshake_too_long : BridgeError
  version_mismatch wrong_profile authentication_failed : BridgeError
  -- App Server arguments
  missing_value unsupported_argument : String → BridgeError

abbrev pub Fallible : Type 0 → Type 0
Fallible A = Result BridgeError A
