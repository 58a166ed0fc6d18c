-- ===== src/Ssh.antt =====
-- crates/cxs-ssh/src/lib.rs: what the shuttle asks OpenSSH and what it writes to the SSH
-- configuration. `Command::output` on `ssh` is a parameter.
pub mod Quote
pub mod Snapshot
pub mod Render
pub mod Remote
mod Tests
use codex_shuttle.Prelude.{ℕ, String, Bool, List, Option}
use codex_shuttle.Core.Names.{HostError}

pub data SshError : Type 0 where
  bad_host : HostError → SshError
  forbidden_control_character : SshError
  malformed_line : ℕ → SshError
  missing_value : String → SshError
  source_host_mismatch : SshError
  unknown_directive : String → SshError
  could_not_run : SshError
  -- The trimmed error output of the command.
  command_failed : String → SshError
  not_utf8 : SshError
  missing_fact : String → SshError

-- `std::process::Output`: the status, the standard output as `String::from_utf8` reads it, and the
-- error output as `String::from_utf8_lossy` does.
pub record Output : Type 0 where
  pub success : Bool
  pub stdout : Option String
  pub stderr : String

-- `Command::new("ssh").args(...).output()`, `none` if the program could not be started.
abbrev pub Ssh : Type 0
Ssh = List String → Option Output
