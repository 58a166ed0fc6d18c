-- ===== src/Ssh/Quote.antt =====
-- crates/cxs-ssh/src/lib.rs: `quote_value` and `reject_newline`.
pub mod RoundTrip
use Prim.Native.String.{◌++◌}
use codex_shuttle.Prelude.{
  ℕ, String, Bool, not, ◌&&◌, ◌||◌, ◌==◌, nat_eq, if◌then◌else◌, any, all, Result, ok, err, ◌>>◌,
}
use codex_shuttle.Prelude.Text.{bytes}
use codex_shuttle.Prelude.Strings.{replace_char}
use codex_shuttle.Core.Names.{is_ascii_whitespace}
use codex_shuttle.Ssh.{SshError, forbidden_control_character}

unfoldable pub is_forbidden : ℕ → Bool
is_forbidden b = b == 10 || b == 13 || b == 0

unfoldable pub reject_newline : String → Result SshError (Unit {0})
unfolding is_forbidden
reject_newline value =
    if any is_forbidden (bytes value) then err forbidden_control_character else ok tt

unfoldable pub is_plain : ℕ → Bool
is_plain b = not (is_ascii_whitespace b) && not (b == b'"' || b == b'\\' || b == b'#')

-- The text that `quote_value` returns once the value is accepted.
unfoldable pub quoted : String → String
unfolding is_plain
quoted value =
    if all is_plain (bytes value)
    then value
    else "\"" ++ replace_char b'"' "\\\"" (replace_char b'\\' "\\\\" value) ++ "\""

unfoldable pub quote_value : String → Result SshError String
unfolding reject_newline quoted
quote_value value = reject_newline value >> ok (quoted value)
