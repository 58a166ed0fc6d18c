-- ===== src/Sessions/Changes.antt =====
-- crates/cxs-sessions/src/lib.rs: `collect_repair_changes`, and what else can fail in a repair.
use codex_shuttle.Prelude.{
  ℕ, String, Bool, false, not, ◌&&◌, ◌||◌, List, [], ◌∷◌, Option, none, some, ◌==◌, string_eq,
  if◌then◌else◌, any, Result, ok, err, ◌>>=◌, ◌>>◌, guard,
}
use codex_shuttle.Sessions.{SessionError, no_table, database_failed}
use codex_shuttle.Sessions.Rollout.{RolloutMeta}

pub record RolloutRecord : Type 0 where
  pub path : String
  pub meta : RolloutMeta
  pub updated : List ℕ
  pub rollout_needs_update : Bool

pub record RolloutChange : Type 0 where
  pub path : String
  pub meta : RolloutMeta
  pub updated : List ℕ

-- A row of `threads`; without a `cwd` column the query reads NULL there.
pub record ThreadRow : Type 0 where
  pub id : String
  pub model_provider : String
  pub cwd : Option String

-- The columns of `threads`, none if there is no such table, and its rows.
pub record Database : Type 0 where
  pub columns : List String
  pub rows : List ThreadRow

-- Which calls succeed: the backup, the transaction's begin and commit, and the replacement of a file
-- while the repair is made and while it is undone.
pub record Faults : Type 0 where
  pub copied : String → Bool
  pub database_copied : Bool
  pub begun : Bool
  pub replaced : String → Bool
  pub committed : Bool
  pub restored : String → Bool

unfoldable pub option_eq : Option String → String → Bool
option_eq none text = false
option_eq (some found) text = found == text

unfoldable pub has_column : String → Database → Bool
has_column name database = any (λ column. column == name) database.columns

unfoldable pub table_columns : Database → Result SessionError (List String)
table_columns database = elim database.columns [
  | [] ↦ err no_table
  | ◌∷◌ column columns ↦ ok (column ∷ columns)
]

unfoldable pub find_row : String → List ThreadRow → Option ThreadRow
find_row id [] = none
find_row id (row ∷ rows) = let later = find_row id rows in if row.id == id then some row else later

-- `cwd.is_some_and(|cwd| sqlite_cwd.is_some_and(|value| cwd != value))`
unfoldable pub cwd_differs : Option String → Option String → Bool
cwd_differs (some cwd) (some value) = not (cwd == value)
cwd_differs _ _ = false

unfoldable pub row_needs_update : String → Bool → Option String → Option ThreadRow → Bool
unfolding cwd_differs
row_needs_update provider has_cwd cwd none = false
row_needs_update provider has_cwd cwd (some row) =
    not (row.model_provider == provider) || (has_cwd && cwd_differs cwd row.cwd)

unfoldable pub sqlite_needs_update : Option Database → String → RolloutMeta → Bool
unfolding row_needs_update find_row has_column
sqlite_needs_update none provider meta = false
sqlite_needs_update (some database) provider meta =
    row_needs_update provider (has_column "cwd" database) meta.cwd (find_row meta.id database.rows)

-- The query is prepared, which fails if the table or its provider column is missing.
unfoldable pub check_database : Option Database → Result SessionError (Unit {0})
unfolding table_columns has_column
check_database none = ok tt
check_database (some database) = table_columns database >>= λ columns.
    guard (has_column "model_provider" database) database_failed

unfoldable pub select_changes : Option Database → String → List RolloutRecord → List RolloutChange
unfolding sqlite_needs_update
select_changes database provider [] = []
select_changes database provider (entry ∷ entries) =
    let rest = select_changes database provider entries in
    if entry.rollout_needs_update || sqlite_needs_update database provider entry.meta
    then record { path = entry.path; meta = entry.meta; updated = entry.updated } ∷ rest
    else rest

unfoldable pub collect_repair_changes :
    Option Database → List RolloutRecord → String → Result SessionError (List RolloutChange)
unfolding check_database select_changes
collect_repair_changes database records provider =
    check_database database >> ok (select_changes database provider records)
