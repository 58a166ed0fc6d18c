-- ===== src/Core/Paths.antt =====
-- crates/cxs-core/src/lib.rs: `AppPaths` and where the desktop's Codex is looked for.
use text.Mathlib.Text.{starts_with}
use Prim.Native.String.{◌++◌}
use codex_shuttle.Prelude.{
  ℕ, ◌/◌, ◌%◌, String, Bool, false, ◌&&◌, ◌||◌, Option, none, some, ◌==◌, nat_eq, string_eq,
  if◌then◌else◌,
}

-- `Path::join` on Unix paths with no trailing slash.
unfoldable pub join : String → String → String
join base path = if starts_with path "/" then path else base ++ "/" ++ path

pub record AppPaths : Type 0 where
  pub state_root : String
  pub ssh_config : String
  pub managed_ssh_config : String
  pub default_codex_home : String

-- `discover` from the home directory and `XDG_STATE_HOME` (Unix).
unfoldable pub discover : Option String → Option String → Option AppPaths
discover none xdg = none
discover (some home) xdg =
    let root : String = elim xdg [ none ↦ join home ".local/state" | some path ↦ path ] in
    some (record {
      state_root = join root "codex-shuttle";
      ssh_config = join (join home ".ssh") "config";
      managed_ssh_config = join (join home ".ssh") "codex-shuttle.conf";
      default_codex_home = join home ".codex";
    })

unfoldable pub profile_dir : AppPaths → String → String
profile_dir paths name = join (join paths.state_root "profiles") name

unfoldable pub bridge_pid : AppPaths → String → String
bridge_pid paths name = join (profile_dir paths name) "bridge.pid"

unfoldable pub bridge_log : AppPaths → String → String
bridge_log paths name = join (profile_dir paths name) "bridge.log"

unfoldable pub session_scope : AppPaths → String → String
session_scope paths name = join (profile_dir paths name) "session-scope.json"

-- What `fs::metadata` tells of a path, if there is anything.
pub record Metadata : Type 0 where
  pub is_file : Bool
  pub mode : ℕ

-- `mode & 0o111 != 0`: one of the three execute bits is set.
unfoldable pub is_executable : ℕ → Bool
is_executable mode = mode % 2 == 1 || mode / 8 % 2 == 1 || mode / 64 % 2 == 1

module _ (metadata : String → Option Metadata) where
  unfoldable pub is_codex : String → Bool
  is_codex path = elim (metadata path) [ none ↦ false | some m ↦ m.is_file && is_executable m.mode ]

  unfoldable pub bundled_unix_codex_path : String → String
  bundled_unix_codex_path resources =
      let newer = join resources "codex-cli/bin/codex" in
      let legacy = join resources "codex" in
      if is_codex newer then newer else if is_codex legacy then legacy else newer

  unfoldable pub resolve_desktop_codex_path : Option String → String
  resolve_desktop_codex_path (some path) = path
  resolve_desktop_codex_path none =
      bundled_unix_codex_path "/Applications/ChatGPT.app/Contents/Resources"
