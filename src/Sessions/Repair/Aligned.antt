-- ===== src/Sessions/Repair/Aligned.antt =====
-- `repair_local`: which rollouts and rows a repair aligns with the provider.
use codex_shuttle.Prelude.{
  ℕ, String, ◌≡◌, ◌≢◌, refl, subst, sym, ap, ◌∙◌, inl, inr, Bool, true, false, not, ◌||◌, List, [],
  ◌∷◌, Option, none, some, arith, ◌==◌, string_eq, any, All, Result, ok, or_fail, or_fail-eq-ok,
  Bool-cases, >>=-eq-ok, if◌then◌else◌,
}
use text.Mathlib.TextEquality.{eq_iff}
use codex_shuttle.Prelude.Assoc.{lookup}
use codex_shuttle.Sessions.{SessionError, io_failed, RolloutCodec, Files}
use codex_shuttle.Sessions.Rollout.{RolloutMeta, inspect_and_rewrite}
use codex_shuttle.Sessions.Apply.{State, needs_rewrite}
use codex_shuttle.Sessions.Changes.{
  RolloutRecord, RolloutChange, ThreadRow, Database, Faults, option_eq, has_column, find_row,
  sqlite_needs_update, row_needs_update, check_database, select_changes, collect_repair_changes,
}
use codex_shuttle.Sessions.Repair.{Survey, RepairReport, inspect_rollouts, survey, repair_rollouts}
use codex_shuttle.Sessions.Repair.Touches.{names_path}
use codex_shuttle.Sessions.Repair.Rows.{RowAligned, RowsAligned, names_thread}
use codex_shuttle.Sessions.Repair.Rewrites.{
  IsInspected, IsRewritten, ChangesInspected, some_inj, pair_inj, records_inj,
}
use codex_shuttle.Sessions.Repair.Repaired.{
  DatabaseAligned, changes_inj, survey_inj, inspected_survey, repair_rollouts-Repaired,
}

All-map :
    {A : Type 0} (P Q : A → Type 0) → ((x : A) → P x → Q x) → (xs : List A) → All P xs → All Q xs
All-map P Q f [] h = tt
All-map P Q f (x ∷ xs) (h, hs) = (f x h, All-map P Q f xs hs)

module _ (codec : RolloutCodec) (provider : String) (files : Files) where
  -- The rollout at the path has this head, and these are its rewritten contents.
  abbrev pub IsRollout : String → List ℕ → RolloutMeta → List ℕ → Type 0
  IsRollout path contents meta updated =
      (lookup path files ≡ some contents)
      × (inspect_and_rewrite codec (some provider) contents ≡ ok (meta, updated))

  -- Of a rollout with another provider there is a change, and of one whose row is to be updated.
  abbrev Covers : Option Database → List RolloutChange → String → Type 0
  Covers database changes path =
      (contents : List ℕ) (meta : RolloutMeta) (updated : List ℕ)
      → IsRollout path contents meta updated
      → (option_eq meta.provider provider ≡ false → names_path path changes ≡ true)
        × (sqlite_needs_update database provider meta ≡ true → names_thread meta.id changes ≡ true)

  change-Covers :
      (database : Option Database) (change : RolloutChange) (changes : List RolloutChange)
      (path : String)
      → Covers database changes path
      → Covers database (change ∷ changes) path
  change-Covers database change changes path h contents meta updated there =
      let (by_path, by_thread) = h contents meta updated there in
      (λ k. rw (by_path k) (ground arith), λ k. rw (by_thread k) (ground arith))

  rollout-Covers :
      (database : Option Database) (path : String) (contents : List ℕ) (meta : RolloutMeta)
      (updated : List ℕ) (rest : List RolloutChange)
      → IsRollout path contents meta updated
      → Covers database
          (if not (option_eq meta.provider provider) || sqlite_needs_update database provider meta
            then record { path = path; meta = meta; updated = updated } ∷ rest
            else rest)
          path
  rollout-Covers database path contents meta updated rest (found, inspected) contents' meta'
        updated' (found', inspected') =
      let same = some_inj (sym found ∙ found') in
      let metas =
        (pair_inj
          (sym inspected ∙ ap (inspect_and_rewrite codec (some provider)) same ∙ inspected')).0 in
      elim (Bool-cases
        (not (option_eq meta.provider provider) || sqlite_needs_update database provider meta)) [
          | inl taken ↦
              rw (taken, ← metas)
                (
                  (λ k. rw ((eq_iff path path).1 refl) refl),
                  λ k. rw ((eq_iff meta.id meta.id).1 refl) refl,
                )
          | inr left ↦
              rw (left, ← metas) ((λ k. ground (arith, k, left)), λ k. ground (arith, k, left))
        ]

  -- Every change is of a listed path.
  abbrev pub Lists : List String → RolloutChange → Type 0
  Lists paths change = any (λ path. path == change.path) paths ≡ true

  -- One more path and, perhaps, its change.
  selected_more :
      (database : Option Database) (taken : Bool) (change : RolloutChange)
      (changes : List RolloutChange) (path : String) (paths : List String)
      → (path == change.path) ≡ true
      → All (Covers database changes) paths
      → All (Lists paths) changes
      → All (Covers database (if taken then change ∷ changes else changes)) paths
        × All (Lists (path ∷ paths)) (if taken then change ∷ changes else changes)
  selected_more database taken change changes path paths same covered listed =
      let more =
        All-map (Lists paths) (Lists (path ∷ paths)) (λ c h. rw h (ground arith)) changes listed in
      elim (Bool-cases taken) [
        | inl chosen ↦ rw chosen (
          All-map (Covers database changes) (Covers database (change ∷ changes))
              (change-Covers database change changes) paths covered,
          (rw same refl, more),
        )
        | inr other ↦ rw other (covered, more)
      ]

  select_changes-Covers :
      (database : Option Database) (paths : List String) (records : List RolloutRecord)
      → inspect_rollouts codec provider files paths ≡ ok records
      → All (Covers database (select_changes database provider records)) paths
        × All (Lists paths) (select_changes database provider records)
  unfolding inspect_rollouts select_changes
  select_changes-Covers database [] records h =
      subst (λ rs. Unit {0} × All (Lists []) (select_changes database provider rs)) (records_inj h)
        (tt, tt)
  select_changes-Covers database (path ∷ paths) records h =
      let (contents, read, h₁) = >>=-eq-ok (or_fail (lookup path files) io_failed) _ h in
      let (pair, inspected, h₂) =
        >>=-eq-ok (inspect_and_rewrite codec (some provider) contents) _ h₁ in
      let (rest, others, h₃) = >>=-eq-ok (inspect_rollouts codec provider files paths) _ h₂ in
      let (covered, listed) = select_changes-Covers database paths rest others in
      let found = or_fail-eq-ok _ io_failed read in
      subst
        (λ rs.
          All (Covers database (select_changes database provider rs)) (path ∷ paths)
          × All (Lists (path ∷ paths)) (select_changes database provider rs))
        (records_inj h₃)
        (
          (
            rollout-Covers database path contents pair.0 pair.1 _ (found, inspected),
            (selected_more database _ _ _ path paths ((eq_iff path path).1 refl) covered listed).0,
          ),
          (selected_more database _ _ _ path paths ((eq_iff path path).1 refl) covered listed).1,
        )

  -- A rollout whose provider is the target stays, and another holds its rewritten contents.
  abbrev pub RolloutAligned : Files → String → Type 0
  RolloutAligned after path =
      (contents : List ℕ) (meta : RolloutMeta) (updated : List ℕ)
      → IsRollout path contents meta updated
      → (meta.provider ≡ some provider → lookup path after ≡ some contents)
        × (meta.provider ≢ some provider → lookup path after ≡ some updated)

  option_eq-some : (o : Option String) → option_eq o provider ≡ true → o ≡ some provider
  unfolding option_eq
  option_eq-some none h = cc
  option_eq-some (some found) h = ap some ((eq_iff found provider).0 h)

  some-option_eq : (o : Option String) → o ≡ some provider → option_eq o provider ≡ true
  unfolding option_eq
  some-option_eq none h = cc
  some-option_eq (some found) h = (eq_iff found provider).1 (ground arith)

  named_change :
      (P : RolloutChange → Type 0) (path : String) (changes : List RolloutChange)
      → All P changes
      → names_path path changes ≡ true
      → (change : RolloutChange) × (change.path ≡ path) × P change
  named_change P path [] h named = cc
  named_change P path (change ∷ changes) (h, hs) named = elim (Bool-cases (change.path == path)) [
    | inl here ↦ (change, (eq_iff change.path path).0 here, h)
    | inr other ↦ named_change P path changes hs (rw other at named)
  ]

  All-both :
      (P Q : RolloutChange → Type 0) (changes : List RolloutChange)
      → All P changes
      → All Q changes
      → All (λ change. P change × Q change) changes
  All-both P Q [] h k = tt
  All-both P Q (change ∷ changes) (h, hs) (k, ks) = ((h, k), All-both P Q changes hs ks)

  -- What stands at the path of a change that is for this rollout.
  change_at :
      (after : Files) (path : String) (contents : List ℕ) (meta : RolloutMeta) (updated : List ℕ)
      (change : RolloutChange)
      → IsRollout path contents meta updated
      → change.path ≡ path
      → IsInspected codec provider files change.path change.meta change.updated
      → IsRewritten codec provider files after change
      → lookup path after
        ≡ some (if not (option_eq meta.provider provider) then updated else contents)
  unfolding needs_rewrite
  change_at after path contents meta updated change (found, inspected) at_path
        (contents', found', inspected') rewritten =
      let here = ap (λ p. lookup p files) at_path ∙ found in
      let same = some_inj (sym found' ∙ here) in
      let (metas, news) =
        pair_inj
          (sym inspected' ∙ ap (inspect_and_rewrite codec (some provider)) same ∙ inspected) in
      ap (λ p. lookup p after) (sym at_path) ∙ rewritten contents here ∙ rw (metas, news) refl

  rollout-RolloutAligned :
      (database : Option Database) (changes : List RolloutChange) (after : Files) (path : String)
      → Covers database changes path
      → ChangesInspected codec provider files changes
      → All (IsRewritten codec provider files after) changes
      → ((other : String)
          → names_path other changes ≡ false
          → lookup other after ≡ lookup other files)
      → RolloutAligned after path
  rollout-RolloutAligned database changes after path covers inspected rewritten others contents meta
        updated (found, given) =
      elim (Bool-cases (names_path path changes)) [
        | inr unnamed ↦ (
          λ same. others path unnamed ∙ found,
          λ differs. elim (Bool-cases (option_eq meta.provider provider)) [
            | inl equal ↦ elim (differs (option_eq-some meta.provider equal)) [ ]
            | inr unequal ↦ cc ((covers contents meta updated (found, given)).0 unequal, unnamed)
          ],
        )
        | inl named ↦
            let (change, at_path, (seen, written)) =
              named_change _ path changes
                (All-both
                  (λ change.
                    IsInspected codec provider files change.path change.meta change.updated)
                  (IsRewritten codec provider files after) changes inspected rewritten)
                named in
            let now =
              change_at after path contents meta updated change (found, given) at_path seen
                written in
            (
              λ same. now ∙ rw (some-option_eq meta.provider same) refl,
              λ differs. elim (Bool-cases (option_eq meta.provider provider)) [
                | inl equal ↦ elim (differs (option_eq-some meta.provider equal)) [ ]
                | inr unequal ↦ now ∙ rw unequal refl
              ],
            )
      ]

  find_row-RowsAligned :
      (has_cwd : Bool) (named : String → Bool) (id : String) (before after : List ThreadRow)
      (row : ThreadRow)
      → RowsAligned has_cwd provider named before after
      → find_row id before ≡ some row
      → (row' : ThreadRow) × (find_row id after ≡ some row')
        × (row.id ≡ id)
        × RowAligned has_cwd provider (named row.id) row row'
  unfolding find_row
  find_row-RowsAligned has_cwd named id [] after row h found = cc
  find_row-RowsAligned has_cwd named id (first ∷ before) [] row h found = elim h [ ]
  find_row-RowsAligned has_cwd named id (first ∷ before) (second ∷ after) row (h, hs) found =
      elim (Bool-cases (first.id == id)) [
        | inl here ↦
            let same : first ≡ row = cc (rw (find_row, here) at found) in
            let there : (second.id == id) ≡ true = ap (λ i. i == id) h.0 ∙ here in
            (
              second,
              rw (find_row, there) refl,
              subst (λ (r : ThreadRow). r.id ≡ id) same ((eq_iff first.id id).0 here),
              subst (λ (r : ThreadRow). RowAligned has_cwd provider (named r.id) r second) same h,
            )
        | inr other ↦
            let there : (second.id == id) ≡ false = ap (λ i. i == id) h.0 ∙ other in
            let (row', found', same_id, rest) =
              find_row-RowsAligned has_cwd named id before after row hs
                (rw (find_row, other) at found) in
            (row', rw (find_row, there) found', same_id, rest)
      ]

  -- The row that is found for a rollout's thread has the provider.
  abbrev pub ThreadAligned : Option Database → Option Database → String → Type 0
  ThreadAligned before after path =
      (contents : List ℕ) (meta : RolloutMeta) (updated : List ℕ) (old new : Database)
      (row : ThreadRow)
      → IsRollout path contents meta updated
      → before ≡ some old
      → after ≡ some new
      → find_row meta.id old.rows ≡ some row
      → (row' : ThreadRow) × (find_row meta.id new.rows ≡ some row')
        × (row'.model_provider ≡ provider)

  rows_between :
      (changes : List RolloutChange) (before after : Option Database) (old new : Database)
      → before ≡ some old
      → after ≡ some new
      → DatabaseAligned provider changes before after
      → RowsAligned
          (has_column "cwd" old)
          provider
          (λ id. names_thread id changes)
          old.rows
          new.rows
  rows_between changes before after old new b a h =
      (subst (λ x. DatabaseAligned provider changes (some old) x) a
        (subst (λ x. DatabaseAligned provider changes x after) b h)).1

  thread-ThreadAligned :
      (changes : List RolloutChange) (before after : Option Database) (path : String)
      → Covers before changes path
      → DatabaseAligned provider changes before after
      → ThreadAligned before after path
  unfolding sqlite_needs_update row_needs_update
  thread-ThreadAligned changes before after path covers aligned contents meta updated old new row
        there b a found =
      let (row', found', same_id, (id_eq, named, unnamed, cwd)) =
        find_row-RowsAligned (has_column "cwd" old) (λ id. names_thread id changes) meta.id old.rows
          new.rows row (rows_between changes before after old new b a aligned) found in
      (
        row',
        found',
        elim (Bool-cases (names_thread row.id changes)) [
          | inl chosen ↦ named chosen
          | inr left ↦ elim (Bool-cases (row.model_provider == provider)) [
            | inl equal ↦
                ap (λ (r : ThreadRow). r.model_provider) (unnamed left)
                ∙ (eq_iff row.model_provider provider).0 equal
            | inr unequal ↦
                let needed : sqlite_needs_update (some old) provider meta ≡ true =
                  rw (sqlite_needs_update, found, row_needs_update, unequal) refl in
                let chosen =
                  (covers contents meta updated there).1
                    (subst (λ x. sqlite_needs_update x provider meta ≡ true) (sym b) needed) in
                cc (ap (λ i. names_thread i changes) same_id, left, chosen)
          ]
        ],
      )

  unlisted_path :
      (paths : List String) (path : String) (changes : List RolloutChange)
      → any (λ listed. listed == path) paths ≡ false
      → All (Lists paths) changes
      → names_path path changes ≡ false
  unlisted_path paths path [] h hs = refl
  unlisted_path paths path (change ∷ changes) h (listed, hs) =
      elim (Bool-cases (change.path == path)) [
        | inl here ↦ cc (
          h,
          subst (λ p. any (λ listed. listed == p) paths ≡ true) ((eq_iff change.path path).0 here)
              listed,
        )
        | inr other ↦ rw other (unlisted_path paths path changes h hs)
      ]

survey-Covers :
    (codec : RolloutCodec) (resolved : Result SessionError String) (rollouts : List String)
    (files : Files) (database : Option Database) (found : Survey)
    → survey codec resolved rollouts (files, database) ≡ ok found
    → (resolved ≡ ok found.provider)
      × All (Covers codec found.provider files database found.changes) rollouts
      × All (Lists codec found.provider files rollouts) found.changes
unfolding survey collect_repair_changes
survey-Covers codec resolved rollouts files database found h =
    let (provider, given, h₁) = >>=-eq-ok resolved _ h in
    let (records, inspected, h₂) =
      >>=-eq-ok (inspect_rollouts codec provider files rollouts) _ h₁ in
    let (changes, collected, h₃) =
      >>=-eq-ok (collect_repair_changes database records provider) _ h₂ in
    let (u, checked, selected) =
      >>=-eq-ok (check_database database) (λ _. ok (select_changes database provider records))
        collected in
    let both =
      subst
        (λ cs.
          All (Covers codec provider files database cs) rollouts
          × All (Lists codec provider files rollouts) cs)
        (changes_inj selected)
        (select_changes-Covers codec provider files database rollouts records inspected) in
    subst
      (λ (s : Survey).
        (resolved ≡ ok s.provider)
        × All (Covers codec s.provider files database s.changes) rollouts
        × All (Lists codec s.provider files rollouts) s.changes)
      (survey_inj h₃) (given, both.0, both.1)

-- A repair that returns a report has aligned every rollout that it was given with the resolved
-- provider: a rollout of another provider holds its rewritten contents, one of this provider stays, and
-- so does every other file; the row that the database has for a rollout's thread names the provider;
-- and a row is changed only if it is of the thread of such a rollout.
pub repair_rollouts-Aligned :
    (codec : RolloutCodec) (faults : Faults) (resolved : Result SessionError String)
    (rollouts : List String) (state : State) (report : RepairReport)
    → (repair_rollouts codec faults resolved rollouts state).0 ≡ ok report
    → (provider : String) × (changes : List RolloutChange) × (resolved ≡ ok provider)
      × All
          (RolloutAligned codec provider state.0
            (repair_rollouts codec faults resolved rollouts state).1.0)
          rollouts
      × ((path : String)
          → any (λ listed. listed == path) rollouts ≡ false
          → lookup path (repair_rollouts codec faults resolved rollouts state).1.0
            ≡ lookup path state.0)
      × All
          (ThreadAligned codec provider state.0 state.1
            (repair_rollouts codec faults resolved rollouts state).1.1)
          rollouts
      × ChangesInspected codec provider state.0 changes
      × All (Lists codec provider state.0 rollouts) changes
      × DatabaseAligned provider changes state.1
          (repair_rollouts codec faults resolved rollouts state).1.1
repair_rollouts-Aligned codec faults resolved rollouts (files, database) report h =
    let after = (repair_rollouts codec faults resolved rollouts (files, database)).1 in
    let (found, surveyed, (rewritten, others, aligned)) =
      repair_rollouts-Repaired codec faults resolved rollouts (files, database) report h in
    let (given, covered, listed) =
      survey-Covers codec resolved rollouts files database found surveyed in
    let inspected = inspected_survey codec resolved rollouts files database found surveyed in
    (
      found.provider,
      found.changes,
      given,
      All-map (Covers codec found.provider files database found.changes)
          (RolloutAligned codec found.provider files after.0)
          (λ path covers.
            rollout-RolloutAligned codec found.provider files database found.changes after.0 path
              covers inspected rewritten others)
          rollouts covered,
      λ path unlisted.
          others path
            (unlisted_path codec found.provider files rollouts path found.changes unlisted listed),
      All-map (Covers codec found.provider files database found.changes)
          (ThreadAligned codec found.provider files database after.1)
          (λ path covers.
            thread-ThreadAligned codec found.provider files found.changes database after.1 path
              covers aligned)
          rollouts covered,
      inspected,
      listed,
      aligned,
    )
