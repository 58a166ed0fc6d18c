-- ===== src/Sessions/Names.antt =====
-- crates/cxs-sessions/src/lib.rs: `validate_provider`, `validate_host`, `shell_quote` and
-- `validate_rollout_path`, with the `Path` methods that they call (Unix).
pub mod Shell
pub mod Paths
use Prim.Native.Char.{code}
use Prim.Native.String
use Prim.Native.String.{◌++◌}
use text.Mathlib.Text.{starts_with}
use codex_shuttle.Prelude.{
  ℕ, String, Bool, true, false, not, ◌&&◌, ◌||◌, List, [], ◌∷◌, Option, none, some, ◌==◌, nat_eq,
  string_eq, if◌then◌else◌, any, all, length, Result, ok, err, ◌>>◌,
}
use codex_shuttle.Prelude.Text.{bytes}
use codex_shuttle.Prelude.Strings.{is_empty, replace_char, to_ascii_lowercase}
use codex_shuttle.Core.Names.{
  is_ascii_alphanumeric, is_ascii_whitespace, starts_with_dash, is_name_byte,
}
use codex_shuttle.Sessions.{
  SessionError, unsafe_provider, unsafe_host, unsafe_path, unexpected_directory, unexpected_file,
  empty_path, session_dirs,
}

unfoldable pub validate_provider : String → Result SessionError (Unit {0})
validate_provider provider =
    if is_empty provider || not (all is_name_byte (bytes provider))
    then err unsafe_provider
    else ok tt

unfoldable pub validate_host : String → Result SessionError (Unit {0})
unfolding starts_with_dash
validate_host host =
    if is_empty host
      || starts_with_dash (bytes host)
      || any (λ b. is_ascii_whitespace b || b == 0) (bytes host)
    then err unsafe_host
    else ok tt

unfoldable pub shell_quote : String → String
shell_quote value = "'" ++ replace_char b'\'' "'\"'\"'" value ++ "'"

-- `std::path::Component` on Unix
pub data Component : Type 0 where
  root_dir cur_dir parent_dir : Component
  normal : String → Component

-- The pieces between slashes.
unfoldable pub split_slash : String → List String
split_slash String.[] = "" ∷ []
split_slash (String.◌∷◌ c s) =
    let rest = split_slash s in
    if code c == b'/'
    then "" ∷ rest
    else elim rest [ [] ↦ String.◌∷◌ c "" ∷ [] | ◌∷◌ piece pieces ↦ String.◌∷◌ c piece ∷ pieces ]

-- The components of pieces that are not the first: an empty piece and a dot count for nothing.
unfoldable pub piece_components : List String → List Component
piece_components [] = []
piece_components (piece ∷ pieces) =
    let rest = piece_components pieces in
    if is_empty piece || piece == "."
    then rest
    else if piece == ".."
    then parent_dir ∷ rest
    else normal piece ∷ rest

unfoldable pub all_components : List String → List Component
unfolding piece_components
all_components [] = []
all_components (piece ∷ pieces) =
    if piece == "." then cur_dir ∷ piece_components pieces else piece_components (piece ∷ pieces)

-- `Path::is_absolute`
unfoldable pub is_absolute : String → Bool
is_absolute path = starts_with path "/"

-- `Path::components`
unfoldable pub components : String → List Component
unfolding is_absolute split_slash all_components
components path =
    if is_empty path
    then []
    else if is_absolute path
    then root_dir ∷ piece_components (split_slash path)
    else all_components (split_slash path)

unfoldable pub is_normal : Component → Bool
is_normal (normal name) = true
is_normal _ = false

-- `Path::file_name`, or the empty text.
unfoldable pub file_name : List Component → String
file_name [] = ""
file_name (normal name ∷ []) = name
file_name (other ∷ []) = ""
file_name (first ∷ second ∷ others) = file_name (second ∷ others)

-- What stands before and after the last dot.
unfoldable pub split_extension : String → Option (String × String)
split_extension String.[] = none
split_extension (String.◌∷◌ c s) = elim (split_extension s) [
  | none ↦ if code c == b'.' then some ("", s) else none
  | some (before, after) ↦ some (String.◌∷◌ c before, after)
]

-- `Path::extension` of a file name
unfoldable pub extension : String → Option String
unfolding split_extension
extension name = elim (split_extension name) [
  | none ↦ none
  | some (before, after) ↦ if is_empty before then none else some after
]

unfoldable pub is_jsonl : Option String → Bool
is_jsonl none = false
is_jsonl (some found) = to_ascii_lowercase found == "jsonl"

unfoldable pub is_session_dir : Component → Bool
is_session_dir (normal name) = any (λ dir. name == dir) session_dirs
is_session_dir _ = false

unfoldable pub check_rollout_components : String → List Component → Result SessionError (Unit {0})
unfolding is_normal is_session_dir file_name extension is_jsonl
check_rollout_components path [] = err (empty_path path)
check_rollout_components path (first ∷ others) =
    let name = file_name (first ∷ others) in
    if not (is_session_dir first)
    then err (unexpected_directory path)
    else if not (starts_with name "rollout-" && is_jsonl (extension name))
    then err (unexpected_file path)
    else ok tt

unfoldable pub validate_rollout_path : String → Result SessionError (Unit {0})
unfolding is_absolute components is_normal check_rollout_components
validate_rollout_path path =
    if is_absolute path || any (λ component. not (is_normal component)) (components path)
    then err (unsafe_path path)
    else check_rollout_components path (components path)
