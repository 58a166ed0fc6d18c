-- ===== src/Sessions/Repair/Rollback.antt =====
-- `repair_local`: the state after an error.
use text.Mathlib.TextEquality.{eq_iff}
use codex_shuttle.Prelude.{
  String, ◌≡◌, refl, subst, ap, ◌∙◌, inl, inr, true, List, [], ◌∷◌, Option, arith, string_eq,
  Result, ok, err, Result-cases, >>=-eq-ok,
}
use codex_shuttle.Prelude.Assoc.{lookup}
use codex_shuttle.Sessions.{SessionError, RolloutCodec, Files}
use codex_shuttle.Sessions.Import.{is_some}
use codex_shuttle.Sessions.Apply.{State, apply_repair}
use codex_shuttle.Sessions.Changes.{RolloutChange, Database, Faults}
use codex_shuttle.Sessions.Repair.{
  Survey, backup_rollouts, backup_database, make_backup, recover, repair_changes, repair_rollouts,
  survey,
}
use codex_shuttle.Sessions.Repair.Touches.{
  names_path, SameFiles, AllPresent, Touches, backup_rollouts-lookup, restore_rollouts-lookup,
  apply_repair-err, SameFiles-restored, files_inj,
}

-- The same files and the same rows.
abbrev pub Unchanged : State → State → Type 0
Unchanged before after = SameFiles before.0 after.0 × (after.1 ≡ before.1)

present_still :
    (files after : Files) (changes : List RolloutChange)
    → ((path : String) → is_some (lookup path files) ≡ true → is_some (lookup path after) ≡ true)
    → AllPresent changes files
    → AllPresent changes after
present_still files after [] keeps h = tt
present_still files after (change ∷ changes) keeps (h, hs) =
    (keeps change.path h, present_still files after changes keeps hs)

named_present :
    (changes cs : List RolloutChange) (files backup : Files)
    → ((path : String) → names_path path cs ≡ true → names_path path changes ≡ true)
    → ((path : String) → names_path path changes ≡ true → lookup path backup ≡ lookup path files)
    → AllPresent cs files
    → AllPresent cs backup
named_present changes [] files backup within same h = tt
named_present changes (c ∷ cs) files backup within same (h, hs) =
    let self = (eq_iff c.path c.path).1 refl in
    (
      ap is_some (same c.path (within c.path (rw self refl))) ∙ h,
      named_present changes cs files backup (λ path k. within path (ground (arith, k))) same hs,
    )

module _ (faults : Faults) (writes : (path : String) → faults.restored path ≡ true) where
  recover-Unchanged :
      (changes : List RolloutChange) (files backup : Files) (database : Option Database)
      (e : SessionError) (after : State)
      → backup_rollouts faults.copied changes files [] ≡ ok backup
      → Touches (λ path. names_path path changes) files after.0
      → after.1 ≡ database
      → Unchanged (files, database) (recover faults changes backup e after).1
  unfolding recover lookup
  recover-Unchanged changes files backup database e after saved (same, present) rows =
      let (found, here) = backup_rollouts-lookup faults.copied changes files [] backup saved in
      let (done, restored) =
        restore_rollouts-lookup faults.restored changes backup after.0 writes
          (named_present changes changes files backup (λ path k. k)
            (λ path k. found path ∙ rw k refl) here)
          (present_still files after.0 changes present here) in
      (
        λ path.
            restored path
            ∙ SameFiles-restored changes files backup after.0 path (found path) (same path),
        rows,
      )

  repair_changes-err :
      (found : Survey) (changes : List RolloutChange) (state : State) (e : SessionError)
      → (repair_changes faults found changes state).0 ≡ err e
      → Unchanged state (repair_changes faults found changes state).1
  unfolding repair_changes make_backup
  repair_changes-err found [] state e h = cc
  repair_changes-err found (change ∷ changes) (files, database) e h =
      elim (Result-cases (make_backup faults (change ∷ changes) (files, database))) [
        | inr (refused, failed) ↦ rw (repair_changes, failed) ((λ path. refl), refl)
        | inl (backup, saved) ↦
            let (copy, copied, rest) =
              >>=-eq-ok (backup_rollouts faults.copied (change ∷ changes) files []) _ saved in
            let (u, stored, same) =
              >>=-eq-ok (backup_database faults database) (λ _. ok copy) rest in
            let copied' =
              subst (λ b. backup_rollouts faults.copied (change ∷ changes) files [] ≡ ok b)
                (files_inj same) copied in
            elim (Result-cases
              (apply_repair faults found.provider (change ∷ changes) (files, database)).0) [
                | inl (counts, applied) ↦ cc (rw (repair_changes, saved, applied) at h)
                | inr (broken, failed) ↦
                    let (touched, rows) =
                      apply_repair-err faults found.provider (change ∷ changes) files database
                        broken failed in
                    rw (repair_changes, saved, failed)
                      (recover-Unchanged (change ∷ changes) files backup database broken _ copied'
                        touched rows)
              ]
      ]

-- If a repair returns an error, of whatever step, and the files can be put back, then every file of
-- the Codex home and every row of the database is as it was before the repair.
pub repair_rollouts-Unchanged :
    (codec : RolloutCodec) (faults : Faults) (resolved : Result SessionError String)
    (rollouts : List String) (state : State) (e : SessionError)
    → ((path : String) → faults.restored path ≡ true)
    → (repair_rollouts codec faults resolved rollouts state).0 ≡ err e
    → Unchanged state (repair_rollouts codec faults resolved rollouts state).1
unfolding repair_rollouts
repair_rollouts-Unchanged codec faults resolved rollouts state e writes h =
    elim (Result-cases (survey codec resolved rollouts state)) [
      | inr (refused, failed) ↦ rw (repair_rollouts, failed) ((λ path. refl), refl)
      | inl (found, surveyed) ↦
          rw (repair_rollouts, surveyed)
            (repair_changes-err faults writes found found.changes state e
              (rw (repair_rollouts, surveyed) at h))
    ]
