-- ===== src/Ssh/Render.antt =====
-- crates/cxs-ssh/src/lib.rs: `render_host`, `rewrite_managed_config` and `ensure_managed_include`. A
-- text that the source pushes onto `output` is appended to it here.
pub mod Block
pub mod Include
pub mod Lines
pub mod Printable
pub mod Refines
use Prim.Native.String.{◌++◌}
use codex_shuttle.Prelude.{
  ℕ, String, Bool, true, false, not, ◌&&◌, ◌||◌, List, [], ◌∷◌, Option, none, some, ◌==◌, string_eq,
  if◌then◌else◌, any, Result, ok, err, ◌>>=◌, ◌>>◌, or_fail, guard,
}
use codex_shuttle.Prelude.Assoc.{lookup}
use codex_shuttle.Prelude.Strings.{split_lines, trim}
use codex_shuttle.Core.Profile.{Profile, status_text}
use codex_shuttle.Ssh.{SshError, source_host_mismatch, unknown_directive}
use codex_shuttle.Ssh.Quote.{reject_newline, quote_value}
use codex_shuttle.Ssh.Snapshot.{SshSnapshot, first_value, required_value}

-- The arms of `directive_name`.
abbrev pub directives : List (String × String)
directives =
    ("addressfamily", "AddressFamily")
    ∷ ("bindaddress", "BindAddress")
    ∷ ("canonicalizehostname", "CanonicalizeHostname")
    ∷ ("compression", "Compression")
    ∷ ("connectionattempts", "ConnectionAttempts")
    ∷ ("connecttimeout", "ConnectTimeout")
    ∷ ("controlmaster", "ControlMaster")
    ∷ ("controlpath", "ControlPath")
    ∷ ("controlpersist", "ControlPersist")
    ∷ ("forwardagent", "ForwardAgent")
    ∷ ("hostkeyalias", "HostKeyAlias")
    ∷ ("identitiesonly", "IdentitiesOnly")
    ∷ ("identityagent", "IdentityAgent")
    ∷ ("identityfile", "IdentityFile")
    ∷ ("ipqos", "IPQoS")
    ∷ ("proxyjump", "ProxyJump")
    ∷ ("serveralivecountmax", "ServerAliveCountMax")
    ∷ ("serveraliveinterval", "ServerAliveInterval")
    ∷ ("stricthostkeychecking", "StrictHostKeyChecking")
    ∷ ("userknownhostsfile", "UserKnownHostsFile")
    ∷ []

-- Another key is a panic, here an error.
unfoldable pub directive_name : String → Result SshError String
directive_name key = or_fail (lookup key directives) (unknown_directive key)

-- The keys of the loop of `render_host`, in its order.
abbrev pub rendered_keys : List String
rendered_keys =
    "addressfamily" ∷ "bindaddress" ∷ "canonicalizehostname" ∷ "compression" ∷ "connectionattempts"
    ∷ "connecttimeout" ∷ "controlmaster" ∷ "controlpath" ∷ "controlpersist" ∷ "forwardagent"
    ∷ "hostkeyalias" ∷ "identitiesonly" ∷ "identityagent" ∷ "ipqos" ∷ "proxyjump"
    ∷ "serveralivecountmax" ∷ "serveraliveinterval" ∷ "stricthostkeychecking" ∷ "userknownhostsfile"
    ∷ []

unfoldable pub contains : String → List String → Bool
contains value items = any (λ item. item == value) items

unfoldable pub same_items : List String → List String → Bool
same_items [] [] = true
same_items (item ∷ items) (value ∷ values) = item == value && same_items items values
same_items _ _ = false

-- `snapshot.inherited_values.get(key) == Some(values)`
unfoldable pub is_inherited : Option (List String) → List String → Bool
unfolding same_items
is_inherited none values = false
is_inherited (some items) values = same_items items values

-- `values.iter().filter(|value| inherited.is_none_or(|items| !items.contains(value)))`
unfoldable pub not_inherited : Option (List String) → List String → List String
unfolding contains
not_inherited inherited [] = []
not_inherited inherited (value ∷ values) =
    let rest = not_inherited inherited values in
    elim inherited [
      | none ↦ value ∷ rest
      | some items ↦ if contains value items then rest else value ∷ rest
    ]

unfoldable pub is_skipped : String → String → Bool
is_skipped key value = value == "none" && (key == "identityfile" || key == "proxyjump")

unfoldable pub is_raw : String → Bool
is_raw key = key == "ipqos" || key == "userknownhostsfile"

unfoldable pub argument_text : String → String → Result SshError String
unfolding is_raw
argument_text key value = if is_raw key then reject_newline value >> ok value else quote_value value

unfoldable pub append_value : String → String → String → String → Result SshError String
unfolding is_skipped argument_text
append_value key directive value output =
    if is_skipped key value
    then ok output
    else argument_text key value >>= λ text. ok (output ++ "  " ++ directive ++ " " ++ text ++ "\n")

unfoldable pub append_values : String → String → List String → String → Result SshError String
append_values key directive [] output = ok output
append_values key directive (value ∷ values) output =
    append_value key directive value output >>= append_values key directive values

unfoldable pub append_source_values : SshSnapshot → String → String → Result SshError String
unfolding is_inherited not_inherited directive_name append_values
append_source_values snapshot key output = elim (lookup key snapshot.values) [
  | none ↦ ok output
  | some values ↦
      let inherited = lookup key snapshot.inherited_values in
      let source_values =
        if key == "identityfile" then not_inherited inherited values else values in
      if is_inherited inherited values
      then ok output
      else directive_name key >>= λ directive. append_values key directive source_values output
]

unfoldable pub append_keys : SshSnapshot → List String → String → Result SshError String
unfolding append_source_values
append_keys snapshot [] output = ok output
append_keys snapshot (key ∷ keys) output =
    append_source_values snapshot key output >>= append_keys snapshot keys

unfoldable pub append_proxy_command : Option String → String → Result SshError String
append_proxy_command none output = ok output
append_proxy_command (some proxy_command) output =
    if proxy_command == "none"
    then ok output
    else reject_newline proxy_command >> ok (output ++ "  ProxyCommand " ++ proxy_command ++ "\n")

-- The first `format!` of `render_host`.
unfoldable pub host_header : Profile → String → String → String → String
host_header profile hostname user port =
    "# profile="
    ++ profile.name
    ++ " source="
    ++ profile.source_host
    ++ " status="
    ++ status_text profile.status
    ++ "\nHost "
    ++ profile.app_alias
    ++ "\n  HostName "
    ++ hostname
    ++ "\n  User "
    ++ user
    ++ "\n  Port "
    ++ port
    ++ "\n"

unfoldable pub render_host : Profile → SshSnapshot → Result SshError String
unfolding host_header append_keys append_proxy_command
render_host profile snapshot = do
  _ ← guard (profile.source_host == snapshot.source_host) source_host_mismatch
  hostname ← required_value snapshot.values "hostname"
  user ← required_value snapshot.values "user"
  port ← required_value snapshot.values "port"
  hostname_text ← quote_value hostname
  user_text ← quote_value user
  port_text ← quote_value port
  keyed ← append_keys snapshot rendered_keys (host_header profile hostname_text user_text port_text)
  files ← append_source_values snapshot "identityfile" keyed
  commanded ← append_proxy_command (first_value snapshot.values "proxycommand") files
  ok (commanded ++ "  RequestTTY no\n")

render_hosts : List (Profile × SshSnapshot) → String → Result SshError String
unfolding render_host
render_hosts [] output = ok output
render_hosts ((profile, snapshot) ∷ profiles) output = do
  text ← render_host profile snapshot
  render_hosts profiles (output ++ text ++ "\n")

-- The text that `rewrite_managed_config` writes.
unfoldable pub rewrite_managed_config : List (Profile × SshSnapshot) → Result SshError String
unfolding render_hosts
rewrite_managed_config profiles =
    render_hosts profiles "# Managed by Codex Shuttle. Manual edits will be replaced.\n\n"

abbrev pub include_line : String
include_line = "Include ~/.ssh/codex-shuttle.conf"

-- The user's SSH configuration after `ensure_managed_include`, `none` where there is no file.
unfoldable pub ensure_managed_include : Option String → String
ensure_managed_include config =
    let existing : String = elim config [ none ↦ "" | some text ↦ text ] in
    if any (λ line. trim line == include_line) (split_lines existing)
    then existing
    else include_line ++ "\n\n" ++ existing
