-- ===== src/Sessions/Import/Known.antt =====
-- `index_local_sessions`, and what an import adds beside the rollouts that were there.
use codex_shuttle.Prelude.{
  ℕ, Bool, String, ◌≡◌, ◌≢◌, refl, sym, ap, ◌∙◌, inl, inr, List, [], ◌∷◌, Option, none, some, arith,
  ◌==◌, string_eq, All, Result, ok, or_fail, Bool-cases, Option-cases, >>=-eq-ok, or_fail-eq-ok,
}
use text.Mathlib.TextEquality.{eq_iff}
use codex_shuttle.Prelude.Assoc.{lookup, lookup-insert}
use codex_shuttle.Sessions.{SessionError, io_failed, RolloutCodec, Files}
use codex_shuttle.Sessions.Rollout.{RolloutMeta, inspect_and_rewrite}
use codex_shuttle.Sessions.Import.{
  or_insert, index_sessions, import_staged_rollouts, list_local_rollouts, Home,
}
use codex_shuttle.Sessions.Import.Verdicts.{Keeps}
use codex_shuttle.Sessions.Import.Kept.{import_staged_rollouts-Added}

or_insert_there :
    (id path : String) (ids : List (String × String)) → lookup id (or_insert id path ids) ≢ none
unfolding or_insert
or_insert_there id path ids h = elim (Option-cases (lookup id ids)) [
  | inl missing ↦ cc (rw (or_insert, missing, lookup-insert id id, (eq_iff id id).1 refl) at h)
  | inr (known, found) ↦ cc (found, rw (or_insert, found) at h)
]

or_insert_before :
    (asked id path : String) (ids : List (String × String))
    → lookup asked (or_insert id path ids) ≡ none
    → lookup asked ids ≡ none
unfolding or_insert
or_insert_before asked id path ids h = elim (Option-cases (lookup id ids)) [
  | inl missing ↦ elim (Bool-cases (id == asked)) [
    | inl same ↦ cc (rw (or_insert, missing, lookup-insert id asked, same) at h)
    | inr other ↦ rw (or_insert, missing, lookup-insert id asked, other) at h
  ]
  | inr (known, found) ↦ rw (or_insert, found) at h
]

meta_inj :
    {a b : RolloutMeta} {c d : List ℕ}
    → Path (Result SessionError (RolloutMeta × List ℕ)) (ok (a, c)) (ok (b, d))
    → a ≡ b
meta_inj h = ground arith

bytes_inj : {a b : List ℕ} → Path (Option (List ℕ)) (some a) (some b) → a ≡ b
bytes_inj h = ground arith

module _ (codec : RolloutCodec) (files : Files) where
  -- The rollout at the path, if it can be read, is of another thread.
  abbrev pub OtherThread : String → String → Type 0
  OtherThread id path =
      (old : List ℕ) (known : RolloutMeta) (same : List ℕ)
      → lookup path files ≡ some old
      → inspect_and_rewrite codec none old ≡ ok (known, same)
      → known.id ≢ id

  index_sessions-OtherThread :
      (installed : String → Bool) (paths : List String) (ids indexed : List (String × String))
      (id : String)
      → index_sessions codec installed files paths ids ≡ ok indexed
      → lookup id indexed ≡ none
      → All (OtherThread id) paths × (lookup id ids ≡ none)
  unfolding index_sessions
  index_sessions-OtherThread installed [] ids indexed id h unknown =
      let same : ids ≡ indexed = ground arith in (tt, ap (lookup id) same ∙ unknown)
  index_sessions-OtherThread installed (path ∷ paths) ids indexed id h unknown =
      let (contents, read, h₁) = >>=-eq-ok (or_fail (lookup path files) io_failed) _ h in
      let ((meta, same), inspected, h₂) =
        >>=-eq-ok (inspect_and_rewrite codec none contents) _ h₁ in
      let (others, before) =
        index_sessions-OtherThread installed paths (or_insert meta.id path ids) indexed id h₂
          unknown in
      (
        (
          λ old known rest found given here.
              let old_eq = bytes_inj (sym (or_fail-eq-ok _ io_failed read) ∙ found) in
              let meta_eq =
                meta_inj (sym inspected ∙ ap (inspect_and_rewrite codec none) old_eq ∙ given) in
              let id_eq : meta.id ≡ id = ap (λ (m : RolloutMeta). m.id) meta_eq ∙ here in
              or_insert_there meta.id path ids
                (ap (λ i. lookup i (or_insert meta.id path ids)) id_eq ∙ before),
          others,
        ),
        or_insert_before id meta.id path ids before,
      )

  -- A new file: the rewritten form of a staged one, of a thread that no local rollout has.
  abbrev pub IsNew : Home → String → Files → String → List ℕ → Type 0
  IsNew home provider staging path contents =
      (staged : List ℕ) × (meta : RolloutMeta) × (lookup path staging ≡ some staged)
      × (inspect_and_rewrite codec (some provider) staged ≡ ok (meta, contents))
      × All (OtherThread meta.id) (list_local_rollouts home)

-- Importing staged rollouts never changes or removes a local file, not even when it fails halfway; and
-- each file that it adds is the rewritten form of a staged rollout whose thread id is that of no
-- rollout that was found in the local Codex home.
pub import_staged_rollouts-Keeps :
    (codec : RolloutCodec) (installed : String → Bool) (home : Home) (files staging : Files)
    (remote_files : List String) (provider : String) (local_ids : List (String × String))
    → index_sessions codec installed files (list_local_rollouts home) [] ≡ ok local_ids
    → Keeps files
        (import_staged_rollouts codec installed home files staging remote_files provider).1
      × ((path : String) (contents : List ℕ)
          → lookup path files ≡ none
          → lookup path
              (import_staged_rollouts codec installed home files staging remote_files provider).1
            ≡ some contents
          → IsNew codec files home provider staging path contents)
import_staged_rollouts-Keeps codec installed home files staging remote_files provider local_ids h =
    let (keeps, added) =
      import_staged_rollouts-Added codec installed home files staging remote_files provider
        local_ids h in
    (
      keeps,
      λ path contents absent there.
          let (staged, meta, found, inspected, unknown) = added path contents absent there in
          (
            staged,
            meta,
            found,
            inspected,
            (index_sessions-OtherThread codec files installed (list_local_rollouts home) []
                local_ids meta.id h unknown).0,
          ),
    )
