-- ===== src/Sessions/Repair/Touches.antt =====
-- Which files the steps of a repair touch: the backup, the rewriting and the restoring.
use text.Mathlib.TextEquality.{eq_iff}
use codex_shuttle.Prelude.{
  ℕ, String, ◌≡◌, refl, subst, sym, ap, ◌∙◌, inl, inr, Bool, true, false, ◌||◌, List, [], ◌∷◌,
  Option, none, some, arith, ◌==◌, string_eq, if◌then◌else◌, any, All, Result, ok, err, ◌>>=◌,
  or_fail, guard, Bool-cases, Option-cases, Result-cases, >>=-eq-ok, or_fail-eq-ok,
}
use codex_shuttle.Prelude.Assoc.{lookup, insert, lookup-insert}
use codex_shuttle.Sessions.{SessionError, io_failed, Files}
use codex_shuttle.Sessions.Import.{is_some}
use codex_shuttle.Sessions.Apply.{
  needs_rewrite, atomic_replace, rewrite_file, rewrite_files, begin_repair, commit_rows,
  apply_repair,
}
use codex_shuttle.Sessions.Changes.{RolloutChange, Database, Faults}
use codex_shuttle.Sessions.Repair.{backup_rollouts, restore_rollouts}

-- The change list names the path.
abbrev pub names_path : String → List RolloutChange → Bool
names_path path changes = any (λ change. change.path == path) changes

abbrev pub SameFiles : Files → Files → Type 0
SameFiles before after = (path : String) → lookup path after ≡ lookup path before

abbrev pub AllPresent : List RolloutChange → Files → Type 0
AllPresent changes files = All (λ change. is_some (lookup change.path files) ≡ true) changes

pub is_some-insert :
    (path other : String) (contents : List ℕ) (files : Files)
    → is_some (lookup other files) ≡ true
    → is_some (lookup other (insert path contents files)) ≡ true
unfolding is_some
is_some-insert path other contents files h = elim (Bool-cases (path == other)) [
  | inl same ↦ rw (lookup-insert path other, same) refl
  | inr differ ↦ rw (lookup-insert path other, differ) h
]

pub present_after :
    (path : String) (contents : List ℕ) (files : Files) (changes : List RolloutChange)
    → AllPresent changes files
    → AllPresent changes (insert path contents files)
present_after path contents files [] h = tt
present_after path contents files (change ∷ changes) (h, hs) =
    (is_some-insert path change.path contents files h, present_after path contents files changes hs)

pub is_some-eq : {A : Type 0} (o : Option A) → is_some o ≡ true → (a : A) × (o ≡ some a)
unfolding is_some
is_some-eq none h = cc
is_some-eq (some a) h = (a, refl)

first_backup :
    (path first : String) (contents : List ℕ) (later : Bool) (files backup : Files)
    → lookup first files ≡ some contents
    → (if later then lookup path files else lookup path (insert first contents backup))
      ≡ (if first == path || later then lookup path files else lookup path backup)
first_backup path first contents true files backup found = ground arith
first_backup path first contents false files backup found = elim (Bool-cases (first == path)) [
  | inl same ↦ rw (lookup-insert first path, same, ← (eq_iff first path).0 same) (sym found)
  | inr differ ↦ rw (lookup-insert first path, differ) refl
]

is_some-some : {A : Type 0} (a : A) → is_some (some a) ≡ true
unfolding is_some
is_some-some a = refl

pub files_inj : {a b : Files} → Path (Result SessionError Files) (ok a) (ok b) → a ≡ b
files_inj h = ground arith

-- The backup holds the old contents of each path that the changes name.
pub backup_rollouts-lookup :
    (copied : String → Bool) (changes : List RolloutChange) (files backup given : Files)
    → backup_rollouts copied changes files backup ≡ ok given
    → ((path : String)
        → lookup path given
          ≡ (if names_path path changes then lookup path files else lookup path backup))
      × AllPresent changes files
unfolding backup_rollouts
backup_rollouts-lookup copied [] files backup given h =
    ((λ path. ap (lookup path) (ground arith)), tt)
backup_rollouts-lookup copied (change ∷ changes) files backup given h =
    let (contents, read, h₁) = >>=-eq-ok (or_fail (lookup change.path files) io_failed) _ h in
    let (u, allowed, h₂) = >>=-eq-ok (guard (copied change.path) io_failed) _ h₁ in
    let found = or_fail-eq-ok (lookup change.path files) io_failed read in
    let (rest, present) =
      backup_rollouts-lookup copied changes files (insert change.path contents backup) given h₂ in
    (
      λ path.
          rest path
          ∙ first_backup path change.path contents (names_path path changes) files backup found,
      (rw found (is_some-some contents), present),
    )

-- Where every replacement succeeds, the restored files are those of the backup.
pub restore_rollouts-lookup :
    (restored : String → Bool) (changes : List RolloutChange) (backup files : Files)
    → ((path : String) → restored path ≡ true)
    → AllPresent changes backup
    → AllPresent changes files
    → ((restore_rollouts restored changes backup files).0 ≡ ok tt)
      × ((path : String)
          → lookup path (restore_rollouts restored changes backup files).1
            ≡ (if names_path path changes then lookup path backup else lookup path files))
unfolding restore_rollouts atomic_replace
restore_rollouts-lookup restored [] backup files writes kept present = (refl, λ path. refl)
restore_rollouts-lookup restored (change ∷ changes) backup files writes (saved, kept)
      (here, present) =
    let (contents, found) = is_some-eq (lookup change.path backup) saved in
    let (old, there) = is_some-eq (lookup change.path files) here in
    let (done, rest) =
      restore_rollouts-lookup restored changes backup (insert change.path contents files) writes
        kept (present_after change.path contents files changes present) in
    rw (restore_rollouts, found, atomic_replace, there, writes change.path)
      (
        done,
        λ path.
            rest path
            ∙ first_backup path change.path contents (names_path path changes) backup files found,
      )

-- One file is rewritten, or none; no file goes.
pub rewrite_file-ok :
    (written : String → Bool) (provider : String) (change : RolloutChange) (files next : Files)
    → rewrite_file written provider change files ≡ ok next
    → next
      ≡ (if needs_rewrite provider change then insert change.path change.updated files else files)
unfolding rewrite_file atomic_replace
rewrite_file-ok written provider change files next h =
    elim (Bool-cases (needs_rewrite provider change)) [
      | inr aligned ↦ rw aligned (sym (files_inj (rw (rewrite_file, aligned) at h)))
      | inl needed ↦ elim (Option-cases (lookup change.path files)) [
        | inl absent ↦ cc (rw (rewrite_file, needed, atomic_replace, absent) at h)
        | inr (old, there) ↦ elim (Bool-cases (written change.path)) [
          | inl done ↦
              rw needed
                (sym (files_inj (rw (rewrite_file, needed, atomic_replace, there, done) at h)))
          | inr failed ↦ cc (rw (rewrite_file, needed, atomic_replace, there, failed) at h)
        ]
      ]
    ]

-- Nothing but the path's file may differ, and none is gone.
abbrev pub Touches : (String → Bool) → Files → Files → Type 0
Touches touched before after =
    ((path : String) → touched path ≡ false → lookup path after ≡ lookup path before)
    × ((path : String) → is_some (lookup path before) ≡ true → is_some (lookup path after) ≡ true)

insert-Touches :
    (needed : Bool) (name : String) (contents : List ℕ) (files : Files)
    → Touches (λ path. name == path) files (if needed then insert name contents files else files)
insert-Touches false name contents files = ((λ path h. refl), λ path h. h)
insert-Touches true name contents files = (
  λ path h. rw (lookup-insert name path, h) refl,
  λ path h. is_some-insert name path contents files h,
)

-- Rewriting touches only the files that the changes name, and removes none.
pub rewrite_files-Touches :
    (written : String → Bool) (provider : String) (changes : List RolloutChange) (files : Files)
    → Touches
        (λ path. names_path path changes)
        files
        (rewrite_files written provider changes files).1
unfolding rewrite_files
rewrite_files-Touches written provider [] files = ((λ path h. refl), λ path h. h)
rewrite_files-Touches written provider (change ∷ changes) files =
    elim (Result-cases (rewrite_file written provider change files)) [
      | inr (e, failed) ↦ rw (rewrite_files, failed) ((λ path h. refl), λ path h. h)
      | inl (next, went) ↦
          let (same, present) =
            subst (Touches (λ path. change.path == path) files)
              (sym (rewrite_file-ok written provider change files next went))
              (insert-Touches (needs_rewrite provider change) change.path change.updated files) in
          let (same', present') = rewrite_files-Touches written provider changes next in
          rw (rewrite_files, went)
            (
              λ path h. same' path (ground arith) ∙ same path (ground arith),
              λ path h. present' path (present path h),
            )
    ]

commit_rows-err :
    (faults : Faults) (provider : String) (changes : List RolloutChange)
    (database : Option Database) (count : ℕ) (e : SessionError)
    → ◌>>=◌ {B = ℕ × ℕ}
        (commit_rows faults provider changes database).0
        (λ updated_rows. ok (updated_rows, count))
      ≡ err e
    → (commit_rows faults provider changes database).1 ≡ database
unfolding commit_rows
commit_rows-err faults provider changes none count e h = cc
commit_rows-err faults provider changes (some database) count e h =
    elim (Bool-cases faults.committed) [
      | inl committed ↦ cc (rw (commit_rows, committed) at h)
      | inr failed ↦ rw (commit_rows, failed) refl
    ]

-- What a repair that failed leaves before it is undone: the named files may differ, the rows do not.
pub apply_repair-err :
    (faults : Faults) (provider : String) (changes : List RolloutChange) (files : Files)
    (database : Option Database) (e : SessionError)
    → (apply_repair faults provider changes (files, database)).0 ≡ err e
    → Touches
        (λ path. names_path path changes)
        files
        (apply_repair faults provider changes (files, database)).1.0
      × ((apply_repair faults provider changes (files, database)).1.1 ≡ database)
unfolding apply_repair
apply_repair-err faults provider changes files database e h =
    elim (Result-cases (begin_repair faults database)) [
      | inr (refused, failed) ↦ rw (apply_repair, failed) (((λ path k. refl), λ path k. k), refl)
      | inl (u, begun) ↦
          let touched = rewrite_files-Touches faults.replaced provider changes files in
          elim (Result-cases (rewrite_files faults.replaced provider changes files).0) [
            | inr (broken, failed) ↦ rw (apply_repair, begun, failed) (touched, refl)
            | inl (count, done) ↦
                rw (apply_repair, begun, done)
                  (
                    touched,
                    commit_rows-err faults provider changes database count e
                        (rw (apply_repair, begun, done) at h),
                  )
          ]
    ]

pub SameFiles-restored :
    (changes : List RolloutChange) (files backup after : Files) (path : String)
    → lookup path backup ≡ (if names_path path changes then lookup path files else none)
    → (names_path path changes ≡ false → lookup path after ≡ lookup path files)
    → (if names_path path changes then lookup path backup else lookup path after)
      ≡ lookup path files
SameFiles-restored changes files backup after path saved same =
    elim (Bool-cases (names_path path changes)) [
      | inl named ↦ rw (named, saved, named) refl
      | inr other ↦ rw other (same other)
    ]
