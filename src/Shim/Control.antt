-- ===== src/Shim/Control.antt =====
-- crates/cxs-shim/src/main.rs: the control socket, the guards of the files that an agent owns, and what
-- an incoming channel is connected to. Connections and sleeps are events.
pub mod Idle
use Prim.Native.Char.{code}
use Prim.Native.String
use Prim.Native.String.{◌++◌}
use codex_shuttle.Prelude.{
  ℕ, zero, suc, ◌+◌, ◌-◌, ◌^◌, String, Bool, true, false, not, ◌&&◌, List, [], ◌∷◌,
  ◌++◌ as list_append, Option, none, some, ◌==◌, nat_eq, string_eq, ltb, if◌then◌else◌, Result, ok,
  err,
}
use codex_shuttle.Prelude.Text.{decimal}
use codex_shuttle.Mux.Channel.{ChannelKind, app, exec, host}
use codex_shuttle.Shim.{ShimConfig, ShimError, not_a_socket, unsupported_channel}

-- What the `select!` of `serve_control_socket_at` can take up.
pub data Event : Type 0 where
  accepted completed idle : Event
  -- `accepted?` returns the error.
  accept_failed : Event

pub data Served : Type 0 where
  -- The loop goes on, with so many clients.
  serving : ℕ → Served
  -- 30 s without a client have ended it.
  ended : Served
  -- An error has ended it.
  failed : Served
  -- The branch of the event is disabled.
  disabled : Served

abbrev pub max_usize : ℕ
max_usize = 2 ^ 64 - 1

unfoldable pub saturating_add : ℕ → ℕ
saturating_add active = if ltb active max_usize then active + 1 else max_usize

unfoldable pub serve_event : Event → ℕ → Served
unfolding saturating_add
serve_event accepted active = serving (saturating_add active)
serve_event completed active = if ltb 0 active then serving (active - 1) else disabled
serve_event idle active = if active == 0 then ended else disabled
serve_event accept_failed active = failed

-- A run of the loop that ends with its last event.
unfoldable pub serve_events : List Event → ℕ → Served
unfolding serve_event
serve_events [] active = serving active
serve_events (event ∷ events) active = elim (serve_event event active) [
  | serving active' ↦ serve_events events active'
  | ended ↦ elim events [ [] ↦ ended | ◌∷◌ next others ↦ disabled ]
  | failed ↦ elim events [ [] ↦ failed | ◌∷◌ next others ↦ disabled ]
  | disabled ↦ disabled
]

-- What stands at a path, as `symlink_metadata` sees it.
pub record PathMeta : Type 0 where
  pub is_socket : Bool
  pub device : ℕ
  pub inode : ℕ

-- `prepare_control_socket`, on the path.
unfoldable pub prepare_control_socket : Option PathMeta → Result ShimError (Option PathMeta)
prepare_control_socket none = ok none
prepare_control_socket (some meta) = if meta.is_socket then ok none else err not_a_socket

pub record SocketGuard : Type 0 where
  pub device : ℕ
  pub inode : ℕ

unfoldable pub new_socket_guard : Option PathMeta → Option SocketGuard
new_socket_guard none = none
new_socket_guard (some meta) = some (record { device = meta.device; inode = meta.inode })

unfoldable pub still_owned : SocketGuard → PathMeta → Bool
still_owned guard meta = meta.is_socket && meta.device == guard.device && meta.inode == guard.inode

-- `Drop for SocketGuard`, on the path.
unfoldable pub drop_socket_guard : SocketGuard → Option PathMeta → Option PathMeta
unfolding still_owned
drop_socket_guard guard none = none
drop_socket_guard guard (some meta) = if still_owned guard meta then none else some meta

-- `Drop for PidFileGuard`, on the number that the file holds, `none` if it holds none.
unfoldable pub drop_pid_guard : ℕ → Option (Option ℕ) → Option (Option ℕ)
drop_pid_guard pid (some (some value)) = if value == pid then none else some (some value)
drop_pid_guard pid other = other

-- The text up to the last slash, that slash included.
parent_part : String → String
parent_part String.[] = String.[]
parent_part (String.◌∷◌ c s) =
    let rest = parent_part s in
    if not (rest == "") then String.◌∷◌ c rest else if code c == b'/' then String.◌∷◌ c "" else ""

-- `Path::with_file_name`
unfoldable pub with_file_name : String → String → String
unfolding parent_part
with_file_name path name = parent_part path ++ name

-- From `CXS_CONTROL_SOCKET` and the configuration.
unfoldable pub app_server_control_socket : Option String → ShimConfig → String
unfolding with_file_name
app_server_control_socket (some path) config = path
app_server_control_socket none config = elim config.control_socket [
  | none ↦ with_file_name config.agent_socket "app.sock"
  | some path ↦ path
]

-- What an incoming channel is relayed to.
pub data Target : Type 0 where
  exec_server : ℕ → Target
  -- the program, its arguments and its `CODEX_HOME`
  host_app_server : String → List String → String → Target

abbrev pub host_arguments : List String
host_arguments =
    "app-server" ∷ "--stdio" ∷ "--disable" ∷ "plugins" ∷ "--disable" ∷ "remote_plugin" ∷ "--disable"
    ∷ "plugin_sharing" ∷ "--disable" ∷ "apps" ∷ []

unfoldable pub relay_incoming_channel : ShimConfig → ChannelKind → ℕ → Result ShimError Target
relay_incoming_channel config exec port = ok (exec_server port)
relay_incoming_channel config host port =
    ok (host_app_server config.exec_server host_arguments (config.codex_home ++ "/host-app-server"))
relay_incoming_channel config app port = err unsupported_channel

unfoldable pub exec_server_arguments : ShimConfig → ℕ → List String
unfolding decimal
exec_server_arguments config port =
    list_append config.exec_server_args ("--listen" ∷ ("ws://127.0.0.1:" ++ decimal port) ∷ [])

-- `available_exec_server_port`, from what binding the preferred port and binding port 0 gives.
unfoldable pub available_exec_server_port : Option ℕ → Option ℕ → Option ℕ
available_exec_server_port (some port) fallback = some port
available_exec_server_port none fallback = fallback
