-- ===== src/Core/Profile.antt =====
-- crates/cxs-core/src/lib.rs: `Profile`, its status, and the two handshakes.
use codex_shuttle.Prelude.{ℕ, String, List, Option}

abbrev pub profile_schema_version : ℕ
profile_schema_version = 1

abbrev pub shim_protocol_version : ℕ
shim_protocol_version = 1

abbrev pub shim_magic : String
shim_magic = "CXS1"

abbrev pub agent_protocol_version : ℕ
agent_protocol_version = 1

abbrev pub agent_magic : String
agent_magic = "CXS-AGENT1"

pub data ProfileStatus : Type 0 where
  prepared installed ready broken : ProfileStatus

-- `Display` of a status
unfoldable pub status_text : ProfileStatus → String
status_text prepared = "prepared"
status_text installed = "installed"
status_text ready = "ready"
status_text broken = "broken"

pub record Profile : Type 0 where
  pub schema_version : ℕ
  pub name : String
  pub source_host : String
  pub app_alias : String
  pub status : ProfileStatus
  pub codex_version : String
  pub local_socket : String
  pub remote_socket : String
  pub environment_id : String
  pub local_exec_port : ℕ
  pub remote_exec_port : ℕ
  pub token_file : String
  pub codex_home : String
  pub installed_target : Option String
  pub remote_home : Option String
  pub remote_release : Option String
  pub package_sha256 : Option String
  pub shim_sha256 : Option String
  pub executor_source : Option String
  pub executor_path : Option String

pub data ShimTransport : Type 0 where
  jsonl web_socket : ShimTransport

pub record ShimHandshake : Type 0 where
  pub magic : String
  pub protocol_version : ℕ
  pub profile : String
  pub token : String
  pub app_server_args : List String
  pub transport : ShimTransport

pub record AgentHandshake : Type 0 where
  pub magic : String
  pub protocol_version : ℕ
  pub profile : String
  pub token : String
