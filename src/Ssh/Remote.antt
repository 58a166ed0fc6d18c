-- ===== src/Ssh/Remote.antt =====
-- crates/cxs-ssh/src/lib.rs: `test_connection` and `query_remote`.
pub mod Facts
use codex_shuttle.Prelude.{
  ℕ, String, List, [], ◌∷◌, ◌++◌, Option, none, some, ◌==◌, nat_eq, Result, ok, err, ◌>>=◌, ◌>>◌,
  or_fail, guard,
}
use codex_shuttle.Prelude.Assoc.{lookup, insert, remove}
use codex_shuttle.Prelude.Strings.{trim, split_lines, split_once}
use codex_shuttle.Ssh.{SshError, could_not_run, command_failed, not_utf8, missing_fact, Output, Ssh}
use codex_shuttle.Ssh.Snapshot.{batch_arguments}

pub record RemoteFacts : Type 0 where
  pub home : String
  pub kernel : String
  pub arch : String

abbrev pub remote_script : String
remote_script =
    "printf 'home=%s\\n' \"$HOME\"; printf 'kernel=%s\\n' \"$(uname -s)\"; printf 'arch=%s\\n' \"$(uname -m)\""

-- `BTreeMap::remove`, with the error if the key is missing.
unfoldable pub take_fact :
    String → List (String × String) → Result SshError (String × List (String × String))
take_fact key facts =
    or_fail (lookup key facts) (missing_fact key) >>= λ value. ok (value, remove key facts)

unfoldable pub collect_facts : List String → List (String × String) → List (String × String)
collect_facts [] facts = facts
collect_facts (line ∷ lines) facts = elim (split_once (λ c. c == b'=') line) [
  | none ↦ collect_facts lines facts
  | some (key, value) ↦ collect_facts lines (insert key value facts)
]

unfoldable pub read_facts : String → Result SshError RemoteFacts
unfolding take_fact collect_facts
read_facts output = do
  (home, without_home) ← take_fact "home" (collect_facts (split_lines output) [])
  (kernel, without_kernel) ← take_fact "kernel" without_home
  (arch, rest) ← take_fact "arch" without_kernel
  ok (record { home = home; kernel = kernel; arch = arch })

-- The command's output, or the error that its start or its status gives.
unfoldable pub succeeded : Option Output → Result SshError Output
succeeded none = err could_not_run
succeeded (some output) = guard output.success (command_failed (trim output.stderr)) >> ok output

module _ (ssh : Ssh) where
  unfoldable pub test_connection : String → Result SshError (Unit {0})
  unfolding succeeded
  test_connection host = do
    arguments ← batch_arguments host
    _ ← succeeded (ssh (arguments ++ "true" ∷ []))
    ok tt

  unfoldable pub query_remote : String → Result SshError RemoteFacts
  unfolding succeeded read_facts
  query_remote host = do
    arguments ← batch_arguments host
    output ← succeeded (ssh (arguments ++ remote_script ∷ []))
    text ← or_fail output.stdout not_utf8
    read_facts text
