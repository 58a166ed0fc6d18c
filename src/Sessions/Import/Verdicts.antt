-- ===== src/Sessions/Import/Verdicts.antt =====
-- `import_file`: what a verdict says, and what one file changes.
use codex_shuttle.Prelude.{
  ℕ, ◌+◌, String, ◌≡◌, refl, subst, inl, inr, ◌⊎◌, Bool, true, false, ◌||◌, List, Option, none,
  some, arith, ◌==◌, string_eq, if◌then◌else◌, any, Result, ok, Bool-cases,
}
use text.Mathlib.TextEquality.{eq_iff}
use codex_shuttle.Prelude.Assoc.{lookup, insert, lookup-insert}
use codex_shuttle.Sessions.{SessionError, RolloutCodec, Files}
use codex_shuttle.Sessions.Rollout.{RolloutMeta, inspect_and_rewrite}
use codex_shuttle.Sessions.Import.{
  SyncReport, Import, Verdict, duplicate, conflict, fresh, is_some, verdict, count_encrypted,
  import_file,
}

-- Every file of the first has the same contents in the second.
abbrev pub Keeps : Files → Files → Type 0
Keeps before after =
    (path : String) (contents : List ℕ)
    → lookup path before ≡ some contents
    → lookup path after ≡ some contents

-- What a new file is: the rewritten form of a staged file, of a session that was not known locally.
abbrev pub IsImported :
    RolloutCodec → String → Files → List (String × String) → String → List ℕ → Type 0
IsImported codec provider staging local_ids path contents =
    (staged : List ℕ) × (meta : RolloutMeta) × (lookup path staging ≡ some staged)
    × (inspect_and_rewrite codec (some provider) staged ≡ ok (meta, contents))
    × (lookup meta.id local_ids ≡ none)

fresh_tests :
    (a b c : Bool)
    → (if a || b then duplicate else if c then conflict else fresh) ≡ fresh
    → (b ≡ false) × (c ≡ false)
fresh_tests true b c h = cc
fresh_tests false true c h = cc
fresh_tests false false true h = cc
fresh_tests false false false h = (refl, refl)

is_some-none : {A : Type 0} (o : Option A) → is_some o ≡ false → o ≡ none
unfolding is_some
is_some-none none h = refl
is_some-none (some a) h = cc

pub verdict-fresh :
    (id path : String) (state : Import)
    → verdict id path state ≡ fresh
    → (lookup id state.local_ids ≡ none) × (lookup path state.files ≡ none)
unfolding verdict
verdict-fresh id path state h =
    let (unknown, absent) = fresh_tests (any (λ known. known == id) state.incoming_ids) _ _ h in
    (is_some-none _ unknown, is_some-none _ absent)

abbrev pub counted : SyncReport → ℕ
counted report = report.imported + report.duplicates + report.conflicts

-- One step: one more is counted, no id is forgotten, and the files are as they were or have one new file.
abbrev pub Step : Verdict → String → List ℕ → Import → Import → Type 0
Step found path updated state next =
    (counted next.report ≡ counted state.report + 1)
    × (next.report.remote_files ≡ state.report.remote_files)
    × ((id : String) → lookup id next.local_ids ≡ none → lookup id state.local_ids ≡ none)
    × ((next.files ≡ state.files)
        ⊎ ((found ≡ fresh) × (next.files ≡ insert path updated state.files)))

counted-count_encrypted :
    (encrypted : Bool) (report : SyncReport)
    → (counted (count_encrypted encrypted report) ≡ counted report)
      × ((count_encrypted encrypted report).remote_files ≡ report.remote_files)
unfolding count_encrypted
counted-count_encrypted true report = (refl, refl)
counted-count_encrypted false report = (refl, refl)

lookup_before :
    (id known path : String) (ids : List (String × String))
    → lookup id (insert known path ids) ≡ none
    → lookup id ids ≡ none
lookup_before id known path ids h = elim (Bool-cases (known == id)) [
  | inl same ↦ cc (rw (lookup-insert known id, same) at h)
  | inr other ↦ rw (lookup-insert known id, other) at h
]

import_inj : {a b : Import} → Path (Result SessionError Import) (ok a) (ok b) → a ≡ b
import_inj h = ground arith

pub import_file-Step :
    (installed : Bool) (found : Verdict) (path : String) (meta : RolloutMeta) (updated : List ℕ)
    (state next : Import)
    → import_file installed found path meta updated state ≡ ok next
    → Step found path updated state next
unfolding import_file
import_file-Step installed duplicate path meta updated state next h =
    let (same, files) = counted-count_encrypted meta.encrypted state.report in
    subst (Step duplicate path updated state) (import_inj h)
      (omega (arith, same), files, (λ id k. k), inl refl)
import_file-Step installed conflict path meta updated state next h =
    let (same, files) = counted-count_encrypted meta.encrypted state.report in
    subst (Step conflict path updated state) (import_inj h)
      (omega (arith, same), files, (λ id k. k), inl refl)
import_file-Step true fresh path meta updated state next h =
    let (same, files) = counted-count_encrypted meta.encrypted state.report in
    subst (Step fresh path updated state) (import_inj h) (
      omega (arith, same),
      files,
      (λ id k. lookup_before id meta.id path state.local_ids k),
      inr (refl, refl),
    )
import_file-Step false fresh path meta updated state next h = cc

pub insert_keeps :
    (path other : String) (updated contents : List ℕ) (files : Files)
    → lookup path files ≡ none
    → lookup other files ≡ some contents
    → lookup other (insert path updated files) ≡ some contents
insert_keeps path other updated contents files absent h = elim (Bool-cases (path == other)) [
  | inl same ↦ cc (h, absent, (eq_iff path other).0 same)
  | inr differ ↦ rw (lookup-insert path other, differ) h
]
