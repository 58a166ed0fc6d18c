-- ===== src/Sessions/Archive.antt =====
-- crates/cxs-sessions/src/lib.rs: `receive_remote_rollouts`. What `tar` reads from a stream is a
-- parameter; the staging directory is empty at first.
pub mod Bounds
use Prim.Native.Nat.{Ordering}
use Prim.Native.String.{◌++◌, compare}
use codex_shuttle.Prelude.{
  ℕ, zero, suc, ◌+◌, ◌*◌, ◌^◌, String, Bool, true, false, not, ◌&&◌, List, [], ◌∷◌,
  ◌++◌ as list_append, Option, none, some, ◌==◌, nat_eq, if◌then◌else◌, ltb, length, Result, ok,
  err, ◌>>=◌, ◌>>◌, or_fail, guard,
}
use codex_shuttle.Prelude.Assoc.{lookup, insert}
use codex_shuttle.Mux.Channel.{read_exact, bytes_eq}
use codex_shuttle.Ssh.Snapshot.{batch_arguments}
use codex_shuttle.Sessions.{
  SessionError, unsafe_host, could_not_start, header_missing, remote_failed, bad_tar, not_regular,
  file_too_large, archive_overflow, archive_too_large, file_exists, io_failed, Files,
}
use codex_shuttle.Sessions.Names.{
  Component, root_dir, cur_dir, parent_dir, normal, components, shell_quote, validate_rollout_path,
}

abbrev pub max_rollout_bytes : ℕ
max_rollout_bytes = 536870912

abbrev pub max_total_bytes : ℕ
max_total_bytes = 4294967296

abbrev pub empty_archive_marker : List ℕ
empty_archive_marker = b'C' ∷ b'X' ∷ b'S' ∷ b'0' ∷ []

pub data EntryKind : Type 0 where
  directory regular special : EntryKind

-- A tar entry; `contents` is what copying it gives, `none` if the copy fails.
pub record ArchiveEntry : Type 0 where
  pub kind : EntryKind
  pub path : String
  pub size : ℕ
  pub contents : Option (List ℕ)

-- The order of `Component`.
component_rank : Component → ℕ
component_rank root_dir = 0
component_rank cur_dir = 1
component_rank parent_dir = 2
component_rank (normal name) = 3

component_before : Component → Component → Ordering
component_before (normal name) (normal other) = compare name other
component_before a b = Prim.Native.Nat.compare (component_rank a) (component_rank b)

-- The order of `PathBuf`: the components, one after another.
path_before : List Component → List Component → Bool
path_before [] ds = true
path_before (c ∷ cs) [] = false
path_before (c ∷ cs) (d ∷ ds) = elim (component_before c d) [
  | Ordering.lt ↦ true
  | Ordering.eq ↦ path_before cs ds
  | Ordering.gt ↦ false
]

insert_sorted : String → List String → List String
insert_sorted path [] = path ∷ []
insert_sorted path (other ∷ others) =
    let later = insert_sorted path others in
    if path_before (components path) (components other)
    then path ∷ other ∷ others
    else other ∷ later

-- `files.sort()`
unfoldable pub sort_paths : List String → List String
unfolding insert_sorted path_before component_before component_rank components
sort_paths [] = []
sort_paths (path ∷ paths) = insert_sorted path (sort_paths paths)

-- The files so far, their number of bytes by their headers, and the staging directory.
pub record Received : Type 0 where
  pub files : List String
  pub total_bytes : ℕ
  pub staging : Files

-- `create_new(true)`, then the copy.
unfoldable pub stage : String → Option (List ℕ) → Files → Result SessionError Files
stage path contents staging = elim (lookup path staging) [
  | some existing ↦ err (file_exists path)
  | none ↦ elim contents [ none ↦ err io_failed | some bytes ↦ ok (insert path bytes staging) ]
]

unfoldable pub receive_regular : ArchiveEntry → Received → Result SessionError Received
unfolding stage validate_rollout_path
receive_regular entry received =
    let total = received.total_bytes + entry.size in
    validate_rollout_path entry.path
    >> (guard (not (ltb max_rollout_bytes entry.size)) (file_too_large entry.path)
        >> (guard (ltb total (2 ^ 64)) archive_overflow
            >> (guard (not (ltb max_total_bytes total)) archive_too_large
                >> (stage entry.path entry.contents received.staging >>= λ staging. ok (record {
                  files = list_append received.files (entry.path ∷ []);
                  total_bytes = total;
                  staging = staging;
                })))))

unfoldable pub receive_kind : EntryKind → ArchiveEntry → Received → Result SessionError Received
unfolding receive_regular
receive_kind directory entry received = ok received
receive_kind special entry received = err not_regular
receive_kind regular entry received = receive_regular entry received

unfoldable pub receive_entry : Option ArchiveEntry → Received → Result SessionError Received
unfolding receive_kind
receive_entry none received = err bad_tar
receive_entry (some entry) received = receive_kind entry.kind entry received

unfoldable pub receive_entries :
    List (Option ArchiveEntry) → Received → Result SessionError Received
unfolding receive_entry
receive_entries [] received = ok received
receive_entries (entry ∷ entries) received =
    receive_entry entry received >>= receive_entries entries

abbrev pub nothing_received : Received
nothing_received = record { files = []; total_bytes = 0; staging = [] }

unfoldable pub remote_root : Option String → String
remote_root none = "$HOME/.codex"
remote_root (some root) = shell_quote root

unfoldable pub remote_script : Option String → String
unfolding remote_root
remote_script root =
    "set -eu; root="
    ++ remote_root root
    ++ "; if ! cd \"$root\" 2>/dev/null; then printf CXS0; exit 0; fi; set --; test ! -d sessions || set -- \"$@\" sessions; test ! -d archived_sessions || set -- \"$@\" archived_sessions; if test \"$#\" -eq 0; then printf CXS0; else tar -cf - \"$@\"; fi"

-- What the remote command wrote and whether it succeeded.
pub record RemoteStream : Type 0 where
  pub stdout : List ℕ
  pub success : Bool

module _ (tar : List ℕ → List (Option ArchiveEntry)) where
  unfoldable pub receive_stream : RemoteStream → Result SessionError (List String × Files)
  unfolding receive_entries sort_paths
  receive_stream stream = do
    (prefix, rest) ← or_fail (read_exact 4 stream.stdout) header_missing
    received ←
        if bytes_eq prefix empty_archive_marker
        then ok nothing_received
        else receive_entries (tar stream.stdout) nothing_received
    _ ← guard stream.success remote_failed
    ok (sort_paths received.files, received.staging)

  unfoldable pub receive_remote_rollouts :
      (List String → Option RemoteStream)
      → String
      → Option String
      → Result SessionError (List String × Files)
  unfolding receive_stream remote_script
  receive_remote_rollouts ssh host root = elim (batch_arguments host) [
    | err _ ↦ err unsafe_host
    | ok arguments ↦
        or_fail (ssh (list_append arguments (remote_script root ∷ []))) could_not_start
        >>= receive_stream
  ]
