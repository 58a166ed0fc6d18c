-- ===== src/Ssh/Snapshot.antt =====
-- crates/cxs-ssh/src/lib.rs: `batch_arguments`, `SshSnapshot`, `parse_ssh_g` and the two `ssh -G`
-- queries. The maps of a snapshot are association lists.
pub mod Parse
pub mod Resolve
use Prim.Native.String.{◌++◌}
use codex_shuttle.Prelude.{
  ℕ, ◌+◌, String, Bool, true, false, List, [], ◌∷◌, ◌++◌ as list_append, Option, none, some, ◌==◌,
  string_eq, if◌then◌else◌, Result, ok, err, ◌>>=◌, ◌>>◌, or_fail, guard,
}
use codex_shuttle.Prelude.Assoc.{lookup, insert}
use codex_shuttle.Prelude.Strings.{
  trim, split_lines, split_once, is_whitespace, is_empty, to_ascii_lowercase,
}
use codex_shuttle.Core.Names.{validate_host_alias, HostError}
use codex_shuttle.Ssh.{
  SshError, bad_host, malformed_line, missing_value, could_not_run, command_failed, not_utf8,
  Output, Ssh,
}
use codex_shuttle.Ssh.Quote.{reject_newline}

abbrev pub Values : Type 0
Values = List (String × List String)

pub record SshSnapshot : Type 0 where
  pub source_host : String
  pub values : Values
  pub inherited_values : Values

unfoldable pub checked_host : String → Result SshError (Unit {0})
checked_host host = elim (validate_host_alias host) [ ok _ ↦ ok tt | err e ↦ err (bad_host e) ]

unfoldable pub batch_arguments : String → Result SshError (List String)
unfolding checked_host
batch_arguments host =
    checked_host host >> ok ("-T" ∷ "-o" ∷ "BatchMode=yes" ∷ "-o" ∷ "ConnectTimeout=10" ∷ host ∷ [])

first : List String → Option String
first [] = none
first (value ∷ others) = some value

unfoldable pub first_value : Values → String → Option String
unfolding first
first_value values key = elim (lookup key values) [ none ↦ none | some items ↦ first items ]

push : String → List String → List String
push value [] = value ∷ []
push value (item ∷ items) = item ∷ push value items

-- `values.entry(key).or_default().push(value)`
unfoldable pub push_value : String → String → Values → Values
unfolding push
push_value key value values = elim (lookup key values) [
  | none ↦ insert key (value ∷ []) values
  | some items ↦ insert key (push value items) values
]

-- One line of the output, already trimmed and not empty.
unfoldable pub parse_line : ℕ → String → Values → Result SshError Values
unfolding push_value
parse_line index line values = elim (split_once is_whitespace line) [
  | none ↦ err (malformed_line (index + 1))
  | some (key, rest) ↦
      let value = trim rest in
      reject_newline value >> ok (push_value (to_ascii_lowercase key) value values)
]

unfoldable pub parse_lines : ℕ → List String → Values → Result SshError Values
unfolding parse_line
parse_lines index [] values = ok values
parse_lines index (line ∷ lines) values =
    let given = trim line in
    (if is_empty given then ok values else parse_line index given values) >>= λ values'.
    parse_lines (index + 1) lines values'

unfoldable pub parse_ssh_g : String → Result SshError Values
unfolding parse_lines
parse_ssh_g text = parse_lines 0 (split_lines text) []

-- What both queries do with the command's result.
unfoldable pub parse_output : Option Output → Result SshError Values
unfolding parse_ssh_g
parse_output none = err could_not_run
parse_output (some output) =
    guard output.success (command_failed (trim output.stderr))
    >> (or_fail output.stdout not_utf8 >>= parse_ssh_g)

unfoldable pub proxy_jump_arguments : Option String → List String
proxy_jump_arguments none = []
proxy_jump_arguments (some proxy_jump) =
    if proxy_jump == "none" then [] else "-o" ∷ ("ProxyJump=" ++ proxy_jump) ∷ []

-- The arguments of the inherited probe, from the source's identity.
unfoldable pub probe_arguments : String → String → String → Option String → List String
unfolding proxy_jump_arguments
probe_arguments hostname user port proxy_jump =
    "-G"
    ∷ "-o"
    ∷ ("HostName=" ++ hostname)
    ∷ "-o"
    ∷ ("User=" ++ user)
    ∷ "-o"
    ∷ ("Port=" ++ port)
    ∷ list_append (proxy_jump_arguments proxy_jump) ("cxs-inherited-probe.invalid" ∷ [])

unfoldable pub required_value : Values → String → Result SshError String
required_value values key = or_fail (first_value values key) (missing_value key)

module _ (ssh : Ssh) where
  unfoldable pub resolve_ssh_values : String → Result SshError Values
  unfolding parse_output
  resolve_ssh_values host = parse_output (ssh ("-G" ∷ host ∷ []))

  unfoldable pub resolve_inherited_ssh_values : Values → Result SshError Values
  unfolding parse_output required_value probe_arguments
  resolve_inherited_ssh_values values = do
    hostname ← required_value values "hostname"
    user ← required_value values "user"
    port ← required_value values "port"
    parse_output (ssh (probe_arguments hostname user port (first_value values "proxyjump")))

  unfoldable pub resolve : String → Result SshError SshSnapshot
  unfolding checked_host resolve_ssh_values resolve_inherited_ssh_values required_value
  resolve host = do
    _ ← checked_host host
    found ← resolve_ssh_values host
    _ ← required_value found "hostname"
    _ ← required_value found "user"
    _ ← required_value found "port"
    inherited ← resolve_inherited_ssh_values found
    ok (record { source_host = host; values = found; inherited_values = inherited })
