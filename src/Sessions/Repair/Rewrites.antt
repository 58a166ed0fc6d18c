-- ===== src/Sessions/Repair/Rewrites.antt =====
-- `repair_local`: the rollout files after the changes.
use codex_shuttle.Prelude.{
  ℕ, String, ◌≡◌, refl, subst, sym, ap, ◌∙◌, inl, inr, Bool, true, ◌||◌, List, [], ◌∷◌, Option,
  some, arith, ◌==◌, string_eq, if◌then◌else◌, All, Result, ok, or_fail, Bool-cases, Result-cases,
  >>=-eq-ok, or_fail-eq-ok,
}
use text.Mathlib.TextEquality.{eq_iff}
use codex_shuttle.Prelude.Assoc.{lookup, insert, lookup-insert}
use codex_shuttle.Sessions.{SessionError, io_failed, RolloutCodec, Files}
use codex_shuttle.Sessions.Rollout.{RolloutMeta, inspect_and_rewrite}
use codex_shuttle.Sessions.Apply.{needs_rewrite, rewrite_file, rewrite_files}
use codex_shuttle.Sessions.Changes.{
  RolloutRecord, RolloutChange, Database, select_changes, sqlite_needs_update,
}
use codex_shuttle.Sessions.Repair.{inspect_rollouts}
use codex_shuttle.Sessions.Repair.Touches.{rewrite_file-ok}

pub some_inj : {a b : List ℕ} → Path (Option (List ℕ)) (some a) (some b) → a ≡ b
some_inj h = ground arith

pub pair_inj :
    {a b : RolloutMeta} {c d : List ℕ}
    → Path (Result SessionError (RolloutMeta × List ℕ)) (ok (a, c)) (ok (b, d))
    → (a ≡ b) × (c ≡ d)
pair_inj h = (ground arith, ground arith)

pub records_inj :
    {a b : List RolloutRecord}
    → Path (Result SessionError (List RolloutRecord)) (ok a) (ok b)
    → a ≡ b
records_inj h = ground arith

module _ (codec : RolloutCodec) (provider : String) (files : Files) where
  -- The change is what `inspect_and_rewrite` gives on the path's file.
  abbrev pub IsInspected : String → RolloutMeta → List ℕ → Type 0
  IsInspected path meta updated =
      (contents : List ℕ) × (lookup path files ≡ some contents)
      × (inspect_and_rewrite codec (some provider) contents ≡ ok (meta, updated))

  abbrev pub ChangesInspected : List RolloutChange → Type 0
  ChangesInspected changes =
      All (λ change. IsInspected change.path change.meta change.updated) changes

  abbrev pub RecordsInspected : List RolloutRecord → Type 0
  RecordsInspected records = All (λ entry. IsInspected entry.path entry.meta entry.updated) records

  pub inspect_rollouts-RecordsInspected :
      (paths : List String) (records : List RolloutRecord)
      → inspect_rollouts codec provider files paths ≡ ok records
      → RecordsInspected records
  unfolding inspect_rollouts
  inspect_rollouts-RecordsInspected [] records h = subst RecordsInspected (records_inj h) tt
  inspect_rollouts-RecordsInspected (path ∷ paths) records h =
      let (contents, read, h₁) = >>=-eq-ok (or_fail (lookup path files) io_failed) _ h in
      let (pair, inspected, h₂) =
        >>=-eq-ok (inspect_and_rewrite codec (some provider) contents) _ h₁ in
      let (rest, others, h₃) = >>=-eq-ok (inspect_rollouts codec provider files paths) _ h₂ in
      subst RecordsInspected (records_inj h₃) (
        (contents, or_fail-eq-ok _ io_failed read, inspected),
        inspect_rollouts-RecordsInspected paths rest others,
      )

  pub select_changes-ChangesInspected :
      (database : Option Database) (records : List RolloutRecord)
      → RecordsInspected records
      → ChangesInspected (select_changes database provider records)
  unfolding select_changes
  select_changes-ChangesInspected database [] h = tt
  select_changes-ChangesInspected database (entry ∷ entries) (h, hs) =
      let rest = select_changes-ChangesInspected database entries hs in
      elim (Bool-cases
        (entry.rollout_needs_update || sqlite_needs_update database provider entry.meta)) [
          | inl taken ↦ rw (select_changes, taken) (h, rest)
          | inr left ↦ rw (select_changes, left) rest
        ]

  -- The contents of the change's file after the repair.
  abbrev pub IsRewritten : Files → RolloutChange → Type 0
  IsRewritten after change =
      (contents : List ℕ)
      → lookup change.path files ≡ some contents
      → lookup change.path after
        ≡ some (if needs_rewrite provider change then change.updated else contents)

  -- Two changes of one path are the same but for their list places.
  same_change :
      (first second : RolloutChange)
      → (first.path == second.path) ≡ true
      → IsInspected first.path first.meta first.updated
      → IsInspected second.path second.meta second.updated
      → (first.meta ≡ second.meta) × (first.updated ≡ second.updated)
  same_change first second same (contents, found, inspected) (contents', found', inspected') =
      let path = (eq_iff first.path second.path).0 same in
      let contents_eq = some_inj (sym found ∙ ap (λ p. lookup p files) path ∙ found') in
      pair_inj
        (sym inspected ∙ ap (inspect_and_rewrite codec (some provider)) contents_eq ∙ inspected')

  step_stays :
      (change other : RolloutChange) (current : Files) (contents : List ℕ)
      → IsInspected change.path change.meta change.updated
      → IsInspected other.path other.meta other.updated
      → lookup change.path current
        ≡ some (if needs_rewrite provider change then change.updated else contents)
      → lookup change.path (
          if needs_rewrite provider other then insert other.path other.updated current else current)
        ≡ some (if needs_rewrite provider change then change.updated else contents)
  unfolding needs_rewrite
  step_stays change other current contents here there value =
      elim (Bool-cases (needs_rewrite provider other)) [
        | inr aligned ↦ rw aligned value
        | inl needed ↦ elim (Bool-cases (other.path == change.path)) [
          | inr differ ↦ rw (needed, lookup-insert other.path change.path, differ) value
          | inl same ↦
              let (meta, updated) = same_change other change same there here in
              rw (needed, lookup-insert other.path change.path, same, ← meta, needed, updated) refl
        ]
      ]

  -- The value that stands at a change's path stays, whatever later changes do.
  rewrite_files-stays :
      (written : String → Bool) (change : RolloutChange) (changes : List RolloutChange)
      (current : Files) (contents : List ℕ)
      → IsInspected change.path change.meta change.updated
      → ChangesInspected changes
      → lookup change.path files ≡ some contents
      → lookup change.path current
        ≡ some (if needs_rewrite provider change then change.updated else contents)
      → lookup change.path (rewrite_files written provider changes current).1
        ≡ some (if needs_rewrite provider change then change.updated else contents)
  unfolding rewrite_files
  rewrite_files-stays written change [] current contents here h found value = value
  rewrite_files-stays written change (other ∷ changes) current contents here (there, h) found
        value =
      elim (Result-cases (rewrite_file written provider other current)) [
        | inr (e, failed) ↦ rw (rewrite_files, failed) value
        | inl (next, went) ↦
            rw (rewrite_files, went)
              (rewrite_files-stays written change changes next contents here h found (
                ap (lookup change.path) (rewrite_file-ok written provider other current next went)
                ∙ step_stays change other current contents here there value))
      ]

  head_written :
      (written : String → Bool) (change : RolloutChange) (changes : List RolloutChange)
      (current next : Files)
      → IsInspected change.path change.meta change.updated
      → ChangesInspected changes
      → rewrite_file written provider change current ≡ ok next
      → needs_rewrite provider change ≡ true
      → lookup change.path (rewrite_files written provider changes next).1 ≡ some change.updated
  head_written written change changes current next (contents, found, inspected) h went needed =
      let now : lookup change.path next
          ≡ some (if needs_rewrite provider change then change.updated else contents) =
        ap (lookup change.path) (rewrite_file-ok written provider change current next went)
        ∙ rw
            (needed, lookup-insert change.path change.path, (eq_iff change.path change.path).1 refl)
            refl in
      rw needed at (
        rewrite_files-stays written change changes next contents (contents, found, inspected) h
          found now)

  abbrev pub NeededWritten : Files → RolloutChange → Type 0
  NeededWritten after change =
      needs_rewrite provider change ≡ true → lookup change.path after ≡ some change.updated

  pub rewrite_files-NeededWritten :
      (written : String → Bool) (changes : List RolloutChange) (current : Files) (count : ℕ)
      → ChangesInspected changes
      → (rewrite_files written provider changes current).0 ≡ ok count
      → All (NeededWritten (rewrite_files written provider changes current).1) changes
  unfolding rewrite_files
  rewrite_files-NeededWritten written [] current count h done = tt
  rewrite_files-NeededWritten written (change ∷ changes) current count (here, h) done =
      elim (Result-cases (rewrite_file written provider change current)) [
        | inr (e, failed) ↦ cc (rw (rewrite_files, failed) at done)
        | inl (next, went) ↦
            let (later, finished, same) =
              >>=-eq-ok (rewrite_files written provider changes next).0 _
                (rw (rewrite_files, went) at done) in
            let after : (rewrite_files written provider (change ∷ changes) current).1
                ≡ (rewrite_files written provider changes next).1 =
              rw (rewrite_files, went) refl in
            subst (λ f. All (NeededWritten f) (change ∷ changes)) (sym after)
              (
                λ needed. head_written written change changes current next here h went needed,
                rewrite_files-NeededWritten written changes next later h finished,
              )
      ]

  -- Every change's file, at the end.
  pub all-IsRewritten :
      (written : String → Bool) (changes cs : List RolloutChange)
      → ChangesInspected changes
      → ChangesInspected cs
      → All (NeededWritten (rewrite_files written provider changes files).1) cs
      → All (IsRewritten (rewrite_files written provider changes files).1) cs
  all-IsRewritten written changes [] h hs ks = tt
  all-IsRewritten written changes (change ∷ cs) h (here, hs) (k, ks) = (
    λ contents found. elim (Bool-cases (needs_rewrite provider change)) [
      | inl needed ↦ rw needed (k needed)
      | inr aligned ↦
          rewrite_files-stays written change changes files contents here h found (rw aligned found)
    ],
    all-IsRewritten written changes cs h hs ks,
  )
