-- ===== src/Sessions/Repair.antt =====
-- crates/cxs-sessions/src/lib.rs: `repair_local`. The files of the Codex home are keyed by their paths
-- from it, so that a rollout's `path` and `relative_path` are one field; so are those of the backup.
-- Whether a write succeeds is in `Faults`.
pub mod Rewrites
pub mod Rows
pub mod Touches
pub mod Rollback
pub mod Repaired
pub mod Aligned
use codex_shuttle.Prelude.{
  ℕ, ◌+◌, String, Bool, true, false, not, ◌&&◌, ◌||◌, List, [], ◌∷◌, Option, none, some, ◌==◌,
  string_eq, if◌then◌else◌, any, length, Result, ok, err, ◌>>=◌, ◌>>◌, or_fail, guard,
}
use codex_shuttle.Prelude.Assoc.{lookup, insert}
use codex_shuttle.Core.Paths.{join}
use codex_shuttle.Sessions.{
  SessionError, io_failed, invalid_config, no_table, no_provider_column, database_busy,
  database_failed, RolloutCodec, Files,
}
use codex_shuttle.Sessions.Rollout.{RolloutMeta, inspect_and_rewrite}
use codex_shuttle.Sessions.Config.{
  ConfigFile, config_missing, config_unreadable, config_text, Config, resolve_provider,
}
use codex_shuttle.Sessions.Import.{Home, list_local_rollouts}
use codex_shuttle.Sessions.Apply.{
  atomic_replace, needs_rewrite, rewrite_file, rewrite_files, coalesce, update_rows, update_threads,
  begin_repair, commit_rows, State, apply_repair,
}
use codex_shuttle.Sessions.Changes.{
  RolloutRecord, RolloutChange, ThreadRow, Database, Faults, option_eq, has_column, table_columns,
  find_row, cwd_differs, row_needs_update, sqlite_needs_update, check_database, select_changes,
  collect_repair_changes,
}

unfoldable pub backup_rollouts :
    (String → Bool) → List RolloutChange → Files → Files → Result SessionError Files
backup_rollouts copied [] files backup = ok backup
backup_rollouts copied (change ∷ changes) files backup = do
  contents ← or_fail (lookup change.path files) io_failed
  _ ← guard (copied change.path) io_failed
  backup_rollouts copied changes files (insert change.path contents backup)

unfoldable pub restore_rollouts :
    (String → Bool) → List RolloutChange → Files → Files → Result SessionError (Unit {0}) × Files
unfolding atomic_replace
restore_rollouts restored [] backup files = (ok tt, files)
restore_rollouts restored (change ∷ changes) backup files =
    elim (or_fail (lookup change.path backup) io_failed >>= λ contents.
    atomic_replace (restored change.path) change.path contents files) [
      | err e ↦ (err e, files)
      | ok files' ↦ restore_rollouts restored changes backup files'
    ]

pub record RepairReport : Type 0 where
  pub scanned : ℕ
  pub rollout_files_updated : ℕ
  pub sqlite_rows_updated : ℕ
  pub encrypted : ℕ
  pub provider : String
  pub backed_up : Bool

unfoldable pub count_encrypted : List RolloutRecord → ℕ
count_encrypted [] = 0
count_encrypted (entry ∷ entries) =
    let rest = count_encrypted entries in if entry.meta.encrypted then rest + 1 else rest

unfoldable pub inspect_rollouts :
    RolloutCodec → String → Files → List String → Result SessionError (List RolloutRecord)
unfolding option_eq
inspect_rollouts codec provider files [] = ok []
inspect_rollouts codec provider files (path ∷ paths) = do
  contents ← or_fail (lookup path files) io_failed
  (meta, updated) ← inspect_and_rewrite codec (some provider) contents
  rest ← inspect_rollouts codec provider files paths
  ok (
      record {
        path = path;
        meta = meta;
        updated = updated;
        rollout_needs_update = not (option_eq meta.provider provider);
      }
      ∷ rest)

-- What `repair_local` finds before it changes anything.
pub record Survey : Type 0 where
  pub records : List RolloutRecord
  pub changes : List RolloutChange
  pub provider : String

unfoldable pub survey :
    RolloutCodec → Result SessionError String → List String → State → Result SessionError Survey
unfolding inspect_rollouts collect_repair_changes
survey codec resolved rollouts (files, database) = do
  provider ← resolved
  records ← inspect_rollouts codec provider files rollouts
  changes ← collect_repair_changes database records provider
  ok (record { records = records; changes = changes; provider = provider })

unfoldable pub report_of : Survey → Option (ℕ × ℕ) → RepairReport
unfolding count_encrypted
report_of found none = record {
  scanned = length found.records;
  rollout_files_updated = 0;
  sqlite_rows_updated = 0;
  encrypted = count_encrypted found.records;
  provider = found.provider;
  backed_up = false;
}
report_of found (some (sqlite_rows, rollout_files)) = record {
  scanned = length found.records;
  rollout_files_updated = rollout_files;
  sqlite_rows_updated = sqlite_rows;
  encrypted = count_encrypted found.records;
  provider = found.provider;
  backed_up = true;
}

unfoldable pub backup_database : Faults → Option Database → Result SessionError (Unit {0})
backup_database faults none = ok tt
backup_database faults (some database) = guard faults.database_copied database_failed

-- The restorable snapshot that is written before any change.
unfoldable pub make_backup : Faults → List RolloutChange → State → Result SessionError Files
unfolding backup_rollouts backup_database
make_backup faults changes state = do
  backup ← backup_rollouts faults.copied changes state.0 []
  _ ← backup_database faults state.1
  ok backup

-- After a failure the files are put back from the backup; where that fails too, its error is returned.
unfoldable pub recover :
    Faults
    → List RolloutChange
    → Files
    → SessionError
    → State
    → Result SessionError RepairReport × State
unfolding restore_rollouts
recover faults changes backup e (files, database) =
    let undone = restore_rollouts faults.restored changes backup files in
    (undone.0 >>= λ _. err e, (undone.1, database))

-- The repair of the changes that were found, from the backup on.
unfoldable pub repair_changes :
    Faults → Survey → List RolloutChange → State → Result SessionError RepairReport × State
unfolding make_backup apply_repair recover report_of
repair_changes faults found [] state = (ok (report_of found none), state)
repair_changes faults found (change ∷ changes) state =
    elim (make_backup faults (change ∷ changes) state) [
      | err e ↦ (err e, state)
      | ok backup ↦
          let applied = apply_repair faults found.provider (change ∷ changes) state in
          elim applied.0 [
            | ok counts ↦ (ok (report_of found (some counts)), applied.1)
            | err e ↦ recover faults (change ∷ changes) backup e applied.1
          ]
    ]

-- `repair_local` on a home whose rollouts and provider are resolved.
unfoldable pub repair_rollouts :
    RolloutCodec
    → Faults
    → Result SessionError String
    → List String
    → State
    → Result SessionError RepairReport × State
unfolding survey repair_changes
repair_rollouts codec faults resolved rollouts state = elim (survey codec resolved rollouts state) [
  | err e ↦ (err e, state)
  | ok found ↦ repair_changes faults found found.changes state
]

unfoldable pub repair_local :
    (String → Option Config)
    → RolloutCodec
    → Faults
    → ConfigFile
    → Option String
    → Home
    → State
    → Result SessionError RepairReport × State
unfolding repair_rollouts resolve_provider list_local_rollouts
repair_local parse codec faults config explicit home state =
    repair_rollouts codec faults (resolve_provider parse config explicit) (list_local_rollouts home)
      state

-- The configured directory, else `CODEX_SQLITE_HOME`, else the Codex home.
unfoldable pub sqlite_home : String → Option String → Option String → String
sqlite_home codex_home (some configured) variable = configured
sqlite_home codex_home none (some path) = path
sqlite_home codex_home none none = codex_home

unfoldable pub configured_home :
    (String → Option Config) → ConfigFile → Result SessionError (Option String)
configured_home parse config_missing = ok none
configured_home parse config_unreadable = err io_failed
configured_home parse (config_text text) =
    or_fail (parse text) invalid_config >>= λ config. ok config.sqlite_home

unfoldable pub resolve_state_db :
    (String → Option Config)
    → (String → Bool)
    → String
    → ConfigFile
    → Option String
    → Result SessionError (Option String)
unfolding configured_home sqlite_home join
resolve_state_db parse exists codex_home config variable = do
  configured ← configured_home parse config
  (let path = join (sqlite_home codex_home configured variable) "state_5.sqlite" in
      ok (if exists path then some path else none))
