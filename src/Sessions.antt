-- ===== src/Sessions.antt =====
-- crates/cxs-sessions/src/lib.rs: rollout files that are pulled from an SSH host, and the repair of
-- their provider. Reading and writing JSON is a parameter, and so are SQLite, tar and SSH.
pub mod Names
pub mod Archive
pub mod Rollout
pub mod Config
pub mod Import
pub mod Changes
pub mod Apply
pub mod Repair
mod Tests
use codex_shuttle.Prelude.{ℕ, String, Bool, List, [], ◌∷◌, Option}
use codex_shuttle.Json.{Value}

pub data SessionError : Type 0 where
  unsafe_provider unsafe_host : SessionError
  unsafe_path unexpected_directory unexpected_file empty_path : String → SessionError
  could_not_start header_missing remote_failed bad_tar : SessionError
  not_regular : SessionError
  file_too_large : String → SessionError
  archive_overflow archive_too_large : SessionError
  file_exists : String → SessionError
  io_failed : SessionError
  invalid_json not_session_meta no_payload no_thread_id : SessionError
  invalid_config : SessionError
  no_table no_provider_column database_busy database_failed : SessionError

-- `serde_json::from_slice` and `serde_json::to_vec`
pub record RolloutCodec : Type 0 where
  pub from_slice : List ℕ → Option Value
  pub to_vec : Value → List ℕ

-- The files of one directory tree, by their paths from its root.
abbrev pub Files : Type 0
Files = List (String × List ℕ)

abbrev pub session_dirs : List String
session_dirs = "sessions" ∷ "archived_sessions" ∷ []
