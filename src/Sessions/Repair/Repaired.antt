-- ===== src/Sessions/Repair/Repaired.antt =====
-- `repair_local`: what a repair that returns a report has done.
use codex_shuttle.Prelude.{
  ℕ, String, ◌≡◌, refl, subst, sym, inl, inr, false, List, [], ◌∷◌, Option, none, some, arith,
  string_eq, All, Result, ok, err, Bool-cases, Result-cases, >>=-eq-ok,
}
use codex_shuttle.Prelude.Assoc.{lookup}
use codex_shuttle.Sessions.{SessionError, RolloutCodec, Files}
use codex_shuttle.Sessions.Apply.{State, rewrite_files, begin_repair, commit_rows, apply_repair}
use codex_shuttle.Sessions.Changes.{
  RolloutChange, Database, Faults, has_column, check_database, select_changes,
  collect_repair_changes,
}
use codex_shuttle.Sessions.Repair.{
  Survey, RepairReport, inspect_rollouts, survey, make_backup, recover, restore_rollouts,
  repair_changes, repair_rollouts,
}
use codex_shuttle.Sessions.Repair.Touches.{names_path, rewrite_files-Touches}
use codex_shuttle.Sessions.Repair.Rows.{
  rows_refl, RowsAligned, names_thread, update_threads-RowsAligned,
}
use codex_shuttle.Sessions.Repair.Rewrites.{
  ChangesInspected, IsRewritten, inspect_rollouts-RecordsInspected, select_changes-ChangesInspected,
  rewrite_files-NeededWritten, all-IsRewritten,
}

pub survey_inj : {a b : Survey} → Path (Result SessionError Survey) (ok a) (ok b) → a ≡ b
survey_inj h = ground arith

pub changes_inj :
    {a b : List RolloutChange}
    → Path (Result SessionError (List RolloutChange)) (ok a) (ok b)
    → a ≡ b
changes_inj h = ground arith

err≢ok :
    {e : SessionError} {r : RepairReport}
    → Path (Result SessionError RepairReport) (err e) (ok r)
    → ⊥
err≢ok h = cc

pub inspected_survey :
    (codec : RolloutCodec) (resolved : Result SessionError String) (rollouts : List String)
    (files : Files) (database : Option Database) (found : Survey)
    → survey codec resolved rollouts (files, database) ≡ ok found
    → ChangesInspected codec found.provider files found.changes
unfolding survey collect_repair_changes
inspected_survey codec resolved rollouts files database found h =
    let (provider, given, h₁) = >>=-eq-ok resolved _ h in
    let (records, inspected, h₂) =
      >>=-eq-ok (inspect_rollouts codec provider files rollouts) _ h₁ in
    let (changes, collected, h₃) =
      >>=-eq-ok (collect_repair_changes database records provider) _ h₂ in
    let (u, checked, selected) =
      >>=-eq-ok (check_database database) (λ _. ok (select_changes database provider records))
        collected in
    subst (λ s. ChangesInspected codec s.provider files s.changes) (survey_inj h₃)
      (subst (ChangesInspected codec provider files) (changes_inj selected) (
        select_changes-ChangesInspected codec provider files database records
          (inspect_rollouts-RecordsInspected codec provider files rollouts records inspected)))

-- The rows of a database that is there or not.
abbrev pub DatabaseAligned :
    String → List RolloutChange → Option Database → Option Database → Type 0
DatabaseAligned provider changes none none = Unit
DatabaseAligned provider changes (some before) none = ⊥
DatabaseAligned provider changes none (some after) = ⊥
DatabaseAligned provider changes (some before) (some after) =
    (after.columns ≡ before.columns)
    × RowsAligned (has_column "cwd" before) provider (λ id. names_thread id changes) before.rows
        after.rows

-- The files and the rows after the repair of the changes.
abbrev pub Repaired : RolloutCodec → String → List RolloutChange → State → State → Type 0
Repaired codec provider changes before after =
    All (IsRewritten codec provider before.0 after.0) changes
    × ((path : String)
        → names_path path changes ≡ false
        → lookup path after.0 ≡ lookup path before.0)
    × DatabaseAligned provider changes before.1 after.1

commit_rows-DatabaseAligned :
    (faults : Faults) (provider : String) (changes : List RolloutChange)
    (database : Option Database) (count : ℕ)
    → (commit_rows faults provider changes database).0 ≡ ok count
    → DatabaseAligned provider changes database (commit_rows faults provider changes database).1
unfolding commit_rows
commit_rows-DatabaseAligned faults provider changes none count h = tt
commit_rows-DatabaseAligned faults provider changes (some database) count h =
    elim (Bool-cases faults.committed) [
      | inr failed ↦ cc (rw (commit_rows, failed) at h)
      | inl committed ↦
          rw (commit_rows, committed)
            (
              refl,
              update_threads-RowsAligned (has_column "cwd" database) provider changes database.rows,
            )
    ]

apply_repair-Repaired :
    (codec : RolloutCodec) (faults : Faults) (provider : String) (changes : List RolloutChange)
    (files : Files) (database : Option Database) (counts : ℕ × ℕ)
    → ChangesInspected codec provider files changes
    → (apply_repair faults provider changes (files, database)).0 ≡ ok counts
    → Repaired codec provider changes
        (files, database)
        (apply_repair faults provider changes (files, database)).1
unfolding apply_repair
apply_repair-Repaired codec faults provider changes files database counts inspected h =
    elim (Result-cases (begin_repair faults database)) [
      | inr (refused, failed) ↦ cc (rw (apply_repair, failed) at h)
      | inl (u, begun) ↦
          elim (Result-cases (rewrite_files faults.replaced provider changes files).0) [
            | inr (broken, failed) ↦ cc (rw (apply_repair, begun, failed) at h)
            | inl (count, done) ↦
                let (rows, committed, same) =
                  >>=-eq-ok (commit_rows faults provider changes database).0 _
                    (rw (apply_repair, begun, done) at h) in
                rw (apply_repair, begun, done)
                  (
                    all-IsRewritten codec provider files faults.replaced changes changes inspected
                        inspected
                        (rewrite_files-NeededWritten codec provider files faults.replaced changes
                          files count inspected done),
                    (rewrite_files-Touches faults.replaced provider changes files).0,
                    commit_rows-DatabaseAligned faults provider changes database rows committed,
                  )
          ]
    ]

no_changes-Repaired :
    (codec : RolloutCodec) (provider : String) (state : State)
    → Repaired codec provider [] state state
no_changes-Repaired codec provider (files, none) = (tt, (λ path h. refl), tt)
no_changes-Repaired codec provider (files, some database) =
    (tt, (λ path h. refl), (refl, rows_refl (has_column "cwd" database) provider database.rows))

recover_fails :
    (faults : Faults) (changes : List RolloutChange) (backup : Files) (e : SessionError)
    (after : State) (report : RepairReport)
    → (recover faults changes backup e after).0 ≡ ok report
    → ⊥
unfolding recover
recover_fails faults changes backup e after report h =
    let (u, restored, last) =
      >>=-eq-ok (restore_rollouts faults.restored changes backup after.0).0 (λ _. err e) h in
    err≢ok last

repair_changes-Repaired :
    (codec : RolloutCodec) (faults : Faults) (found : Survey) (changes : List RolloutChange)
    (state : State) (report : RepairReport)
    → ChangesInspected codec found.provider state.0 changes
    → (repair_changes faults found changes state).0 ≡ ok report
    → Repaired codec found.provider changes state (repair_changes faults found changes state).1
unfolding repair_changes
repair_changes-Repaired codec faults found [] state report inspected h =
    no_changes-Repaired codec found.provider state
repair_changes-Repaired codec faults found (change ∷ changes) (files, database) report inspected h =
    elim (Result-cases (make_backup faults (change ∷ changes) (files, database))) [
      | inr (refused, failed) ↦ cc (rw (repair_changes, failed) at h)
      | inl (backup, saved) ↦
          elim (Result-cases
            (apply_repair faults found.provider (change ∷ changes) (files, database)).0) [
              | inl (counts, applied) ↦
                  let same : (repair_changes faults found (change ∷ changes) (files, database)).1
                      ≡ (apply_repair faults found.provider (change ∷ changes)
                          (files, database)).1 =
                    rw (repair_changes, saved, applied) refl in
                  subst (Repaired codec found.provider (change ∷ changes) (files, database))
                    (sym same)
                    (apply_repair-Repaired codec faults found.provider (change ∷ changes) files
                      database counts inspected applied)
              | inr (broken, failed) ↦
                  elim (recover_fails faults (change ∷ changes) backup broken
                    (apply_repair faults found.provider (change ∷ changes) (files, database)).1
                    report (rw (repair_changes, saved, failed) at h)) [ ]
            ]
    ]

-- A repair that returns a report did what its survey asks for: of the surveyed changes, each whose
-- provider differs has its file rewritten, each file of no change is as it was, and in the database each
-- row of a changed thread has the provider, while every other row and the columns are as they were.
pub repair_rollouts-Repaired :
    (codec : RolloutCodec) (faults : Faults) (resolved : Result SessionError String)
    (rollouts : List String) (state : State) (report : RepairReport)
    → (repair_rollouts codec faults resolved rollouts state).0 ≡ ok report
    → (found : Survey) × (survey codec resolved rollouts state ≡ ok found)
      × Repaired codec found.provider found.changes state
          (repair_rollouts codec faults resolved rollouts state).1
unfolding repair_rollouts
repair_rollouts-Repaired codec faults resolved rollouts (files, database) report h =
    elim (Result-cases (survey codec resolved rollouts (files, database))) [
      | inr (refused, failed) ↦ cc (rw (repair_rollouts, failed) at h)
      | inl (found, surveyed) ↦
          rw (repair_rollouts, surveyed)
            (
              found,
              refl,
              repair_changes-Repaired codec faults found found.changes (files, database) report
                  (inspected_survey codec resolved rollouts files database found surveyed)
                  (rw (repair_rollouts, surveyed) at h),
            )
    ]
