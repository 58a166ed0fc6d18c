-- ===== src/Sessions/Import.antt =====
-- crates/cxs-sessions/src/lib.rs: the listing of local rollouts and `import_staged_rollouts`. The files
-- of the local Codex home and of the staging directory are keyed by their paths from it.
pub mod Verdicts
pub mod Kept
pub mod Known
use Prim.Native.Char.{code}
use Prim.Native.String
use Prim.Native.String.{◌++◌}
use text.Mathlib.Text.{starts_with}
use codex_shuttle.Prelude.{
  ℕ, ◌+◌, String, Bool, true, false, ◌&&◌, ◌||◌, List, [], ◌∷◌, ◌++◌ as list_append, Option, none,
  some, ◌==◌, string_eq, if◌then◌else◌, any, length, Result, ok, err, ◌>>=◌, ◌>>◌, or_fail, guard,
}
use codex_shuttle.Prelude.Assoc.{lookup, insert}
use codex_shuttle.Core.Paths.{join}
use codex_shuttle.Sessions.{
  SessionError, io_failed, invalid_config, unsafe_provider, RolloutCodec, Files, session_dirs,
}
use codex_shuttle.Sessions.Names.{validate_host, validate_provider}
use codex_shuttle.Sessions.Archive.{ArchiveEntry, RemoteStream, sort_paths, receive_remote_rollouts}
use codex_shuttle.Sessions.Rollout.{RolloutMeta, inspect_and_rewrite}
use codex_shuttle.Sessions.Config.{
  ConfigFile, config_missing, config_unreadable, config_text, Config, checked_provider,
  configured_provider, resolve_provider,
}

mutual
  pub data Node : Type 0 where
    regular symlink special : Node
    directory : Nodes → Node

  -- The entries of a directory, in the order of `read_dir`.
  pub data Nodes : Type 0 where
    no_nodes : Nodes
    node : String → Node → Nodes → Nodes

unfoldable pub ends_with : String → String → Bool
ends_with String.[] suffix = suffix == ""
ends_with (String.◌∷◌ c s) suffix = (String.◌∷◌ c s) == suffix || ends_with s suffix

unfoldable pub is_rollout_name : String → Bool
unfolding ends_with
is_rollout_name name = starts_with name "rollout-" && ends_with name ".jsonl"

unfoldable mutual
  unfolding is_rollout_name join

  pub collect_node : String → String → Node → List String
  collect_node path name regular = if is_rollout_name name then join path name ∷ [] else []
  collect_node path name symlink = []
  collect_node path name special = []
  collect_node path name (directory nodes) = collect_rollouts (join path name) nodes

  pub collect_rollouts : String → Nodes → List String
  collect_rollouts path no_nodes = []
  collect_rollouts path (node name entry others) =
      list_append (collect_node path name entry) (collect_rollouts path others)

-- The directories of a Codex home that hold rollouts, `none` if there is no such directory.
abbrev pub Home : Type 0
Home = String → Option Nodes

collect_dirs : Home → List String → List String
unfolding collect_rollouts
collect_dirs home [] = []
collect_dirs home (dir ∷ dirs) =
    let later = collect_dirs home dirs in
    elim (home dir) [ none ↦ later | some nodes ↦ list_append (collect_rollouts dir nodes) later ]

unfoldable pub list_local_rollouts : Home → List String
unfolding collect_dirs sort_paths
list_local_rollouts home = sort_paths (collect_dirs home session_dirs)

-- `result.entry(id).or_insert(path)`
unfoldable pub or_insert : String → String → List (String × String) → List (String × String)
or_insert id path ids = elim (lookup id ids) [ none ↦ insert id path ids | some known ↦ ids ]

pub record SyncReport : Type 0 where
  pub remote_files : ℕ
  pub imported : ℕ
  pub duplicates : ℕ
  pub conflicts : ℕ
  pub encrypted : ℕ
  pub provider : String

-- The state of the loop of `import_staged_rollouts`.
pub record Import : Type 0 where
  pub local_ids : List (String × String)
  pub incoming_ids : List String
  pub report : SyncReport
  pub files : Files

pub data Verdict : Type 0 where
  duplicate conflict fresh : Verdict

unfoldable pub is_some : {A : Type 0} → Option A → Bool
is_some none = false
is_some (some a) = true

unfoldable pub verdict : String → String → Import → Verdict
unfolding is_some
verdict id path state =
    if any (λ known. known == id) state.incoming_ids || is_some (lookup id state.local_ids)
    then duplicate
    else if is_some (lookup path state.files)
    then conflict
    else fresh

unfoldable pub count_encrypted : Bool → SyncReport → SyncReport
count_encrypted true report = record report { encrypted = report.encrypted + 1 }
count_encrypted false report = report

-- A file that is inspected, after its verdict; `installed` tells whether the new file could be
-- written and persisted.
unfoldable pub import_file :
    Bool → Verdict → String → RolloutMeta → List ℕ → Import → Result SessionError Import
unfolding count_encrypted
import_file installed duplicate path meta updated state =
    let report = count_encrypted meta.encrypted state.report in
    ok (record state {
      incoming_ids = meta.id ∷ state.incoming_ids;
      report = record report { duplicates = report.duplicates + 1 };
    })
import_file installed conflict path meta updated state =
    let report = count_encrypted meta.encrypted state.report in
    ok (record state {
      incoming_ids = meta.id ∷ state.incoming_ids;
      report = record report { conflicts = report.conflicts + 1 };
    })
import_file false fresh path meta updated state = err io_failed
import_file true fresh path meta updated state =
    let report = count_encrypted meta.encrypted state.report in
    ok (record {
      local_ids = insert meta.id path state.local_ids;
      incoming_ids = meta.id ∷ state.incoming_ids;
      report = record report { imported = report.imported + 1 };
      files = insert path updated state.files;
    })

abbrev pub start_import : List (String × String) → Files → List String → String → Import
start_import local_ids files remote_files provider = record {
  local_ids = local_ids;
  incoming_ids = [];
  report = record {
    remote_files = length remote_files;
    imported = 0;
    duplicates = 0;
    conflicts = 0;
    encrypted = 0;
    provider = provider;
  };
  files = files;
}

module _ (codec : RolloutCodec) (installed : String → Bool) where
  unfoldable pub index_sessions :
      Files → List String → List (String × String) → Result SessionError (List (String × String))
  unfolding or_insert
  index_sessions files [] ids = ok ids
  index_sessions files (path ∷ paths) ids = do
    contents ← or_fail (lookup path files) io_failed
    (meta, same) ← inspect_and_rewrite codec none contents
    index_sessions files paths (or_insert meta.id path ids)

  unfoldable pub import_path : String → Files → String → Import → Result SessionError Import
  unfolding verdict import_file
  import_path provider staging path state = do
    contents ← or_fail (lookup path staging) io_failed
    (meta, updated) ← inspect_and_rewrite codec (some provider) contents
    import_file (installed path) (verdict meta.id path state) path meta updated state

  -- An error ends the loop and leaves the files that were installed before.
  unfoldable pub import_paths :
      String → Files → List String → Import → Result SessionError SyncReport × Files
  unfolding import_path
  import_paths provider staging [] state = (ok state.report, state.files)
  import_paths provider staging (path ∷ paths) state =
      elim (import_path provider staging path state) [
        | err e ↦ (err e, state.files)
        | ok next ↦ import_paths provider staging paths next
      ]

  unfoldable pub import_staged_rollouts :
      Home → Files → Files → List String → String → Result SessionError SyncReport × Files
  unfolding index_sessions import_paths list_local_rollouts
  import_staged_rollouts home files staging remote_files provider =
      elim (index_sessions files (list_local_rollouts home) []) [
        | err e ↦ (err e, files)
        | ok local_ids ↦
            import_paths provider staging remote_files
              (start_import local_ids files remote_files provider)
      ]

module _ (parse : String → Option Config) where
  unfoldable pub fetch :
      (List ℕ → List (Option ArchiveEntry))
      → (List String → Option RemoteStream)
      → ConfigFile
      → String
      → Option String
      → Option String
      → Result SessionError (String × (List String × Files))
  unfolding resolve_provider
  fetch tar ssh config host root explicit = do
    _ ← validate_host host
    provider ← resolve_provider parse config explicit
    received ← receive_remote_rollouts tar ssh host root
    ok (provider, received)

  unfoldable pub sync_from_remote :
      RolloutCodec
      → (String → Bool)
      → (List ℕ → List (Option ArchiveEntry))
      → (List String → Option RemoteStream)
      → Home
      → Files
      → ConfigFile
      → String
      → Option String
      → Option String
      → Result SessionError SyncReport × Files
  unfolding fetch import_staged_rollouts
  sync_from_remote codec installed tar ssh home files config host root explicit =
      elim (fetch tar ssh config host root explicit) [
        | err e ↦ (err e, files)
        | ok (provider, (paths, staging)) ↦
            import_staged_rollouts codec installed home files staging paths provider
      ]
