-- ===== src/Bridge/Tests.antt =====
-- The theorems on crates/cxs-bridge at concrete inputs: one profile, and a small codec.
pub mod Transport
pub mod Messages
pub mod Relays
use codex_shuttle.Prelude.{
  ℕ, String, Bool, List, Option, none, some, ◌==◌, string_eq, if◌then◌else◌,
}
use codex_shuttle.Json.{Value, Codec, string, number, object, end, field, pos_int, get_str}
use codex_shuttle.Core.Profile.{Profile, ready}

abbrev pub profile : Profile
profile = record {
  schema_version = 1;
  name = "gpu";
  source_host = "gpu";
  app_alias = "cxs-gpu";
  status = ready;
  codex_version = "0.1.0";
  local_socket = "/tmp/l.sock";
  remote_socket = "/tmp/r.sock";
  environment_id = "gpu";
  local_exec_port = 4000;
  remote_exec_port = 40000;
  token_file = "/tmp/token";
  codex_home = "/tmp/home";
  installed_target = none;
  remote_home = none;
  remote_release = none;
  package_sha256 = none;
  shim_sha256 = none;
  executor_source = none;
  executor_path = none;
}

abbrev pub initialize_request : Value
initialize_request =
    object (field "id" (number (pos_int 1)) (field "method" (string "initialize") end))

abbrev pub codec : Codec
codec = record {
  encode = λ v. elim (get_str "method" v) [ none ↦ "answer" | some m ↦ m ];
  decode = λ s.
      if s == "initialize"
      then some initialize_request
      else some (object (field "method" (string s) end));
}
