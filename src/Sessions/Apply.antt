-- ===== src/Sessions/Apply.antt =====
-- crates/cxs-sessions/src/lib.rs: `apply_repair`. Whether a write succeeds is in `Faults`.
use codex_shuttle.Prelude.{
  ℕ, ◌+◌, String, Bool, not, List, [], ◌∷◌, Option, none, some, ◌==◌, string_eq, if◌then◌else◌,
  Result, ok, err, ◌>>=◌, ◌>>◌, guard,
}
use codex_shuttle.Prelude.Assoc.{lookup, insert}
use codex_shuttle.Sessions.{
  SessionError, io_failed, no_provider_column, database_busy, database_failed, Files,
}
use codex_shuttle.Sessions.Changes.{
  RolloutChange, ThreadRow, Database, Faults, option_eq, has_column, table_columns,
}
use codex_shuttle.Sessions.Rollout.{RolloutMeta}

-- The new file takes the place of one that is there.
unfoldable pub atomic_replace : Bool → String → List ℕ → Files → Result SessionError Files
atomic_replace written path contents files = elim (lookup path files) [
  | none ↦ err io_failed
  | some old ↦ if written then ok (insert path contents files) else err io_failed
]

unfoldable pub needs_rewrite : String → RolloutChange → Bool
unfolding option_eq
needs_rewrite provider change = not (option_eq change.meta.provider provider)

unfoldable pub rewrite_file :
    (String → Bool) → String → RolloutChange → Files → Result SessionError Files
unfolding needs_rewrite atomic_replace
rewrite_file written provider change files =
    if needs_rewrite provider change
    then atomic_replace (written change.path) change.path change.updated files
    else ok files

-- The files afterwards, also where a replacement failed, and the number of rewritten files.
unfoldable pub rewrite_files :
    (String → Bool) → String → List RolloutChange → Files → Result SessionError ℕ × Files
unfolding needs_rewrite rewrite_file
rewrite_files written provider [] files = (ok 0, files)
rewrite_files written provider (change ∷ changes) files =
    elim (rewrite_file written provider change files) [
      | err e ↦ (err e, files)
      | ok files' ↦
          let rest = rewrite_files written provider changes files' in
          (
            rest.0 >>= λ count. ok (if needs_rewrite provider change then count + 1 else count),
            rest.1,
          )
    ]

-- `COALESCE(?2, cwd)`
unfoldable pub coalesce : Option String → Option String → Option String
coalesce none old = old
coalesce (some new) old = some new

-- One `UPDATE threads SET ... WHERE id = ?`, with the number of rows it changed.
unfoldable pub update_rows : Bool → String → RolloutMeta → List ThreadRow → List ThreadRow × ℕ
unfolding coalesce
update_rows has_cwd provider meta [] = ([], 0)
update_rows has_cwd provider meta (row ∷ rows) =
    let rest = update_rows has_cwd provider meta rows in
    if row.id == meta.id
    then (
      record {
        id = row.id;
        model_provider = provider;
        cwd = if has_cwd then coalesce meta.cwd row.cwd else row.cwd;
      }
          ∷ rest.0,
      rest.1 + 1,
    )
    else (row ∷ rest.0, rest.1)

unfoldable pub update_threads :
    Bool → String → List RolloutChange → List ThreadRow → List ThreadRow × ℕ
unfolding update_rows
update_threads has_cwd provider [] rows = (rows, 0)
update_threads has_cwd provider (change ∷ changes) rows =
    let updated = update_rows has_cwd provider change.meta rows in
    let rest = update_threads has_cwd provider changes updated.0 in (rest.0, updated.1 + rest.1)

-- What `apply_repair` checks before it changes anything.
unfoldable pub begin_repair : Faults → Option Database → Result SessionError (Unit {0})
unfolding table_columns has_column
begin_repair faults none = ok tt
begin_repair faults (some database) =
    guard faults.begun database_busy
    >> (table_columns database >>= λ columns.
        guard (has_column "model_provider" database) no_provider_column)

-- The rows are changed inside the transaction: they stay as they were if it is not committed.
unfoldable pub commit_rows :
    Faults → String → List RolloutChange → Option Database → Result SessionError ℕ × Option Database
unfolding update_threads has_column
commit_rows faults provider changes none = (ok 0, none)
commit_rows faults provider changes (some database) =
    let updated = update_threads (has_column "cwd" database) provider changes database.rows in
    if faults.committed
    then (ok updated.1, some (record { columns = database.columns; rows = updated.0 }))
    else (err database_failed, some database)

-- The state that a repair changes.
abbrev pub State : Type 0
State = Files × Option Database

unfoldable pub apply_repair :
    Faults → String → List RolloutChange → State → Result SessionError (ℕ × ℕ) × State
unfolding begin_repair rewrite_files commit_rows
apply_repair faults provider changes (files, database) = elim (begin_repair faults database) [
  | err e ↦ (err e, (files, database))
  | ok _ ↦
      let rewritten = rewrite_files faults.replaced provider changes files in
      elim rewritten.0 [
        | err e ↦ (err e, (rewritten.1, database))
        | ok rollout_updates ↦
            let committed = commit_rows faults provider changes database in
            (
              committed.0 >>= λ updated_rows. ok (updated_rows, rollout_updates),
              (rewritten.1, committed.1),
            )
      ]
]
