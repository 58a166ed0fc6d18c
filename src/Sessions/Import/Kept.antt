-- ===== src/Sessions/Import/Kept.antt =====
-- `import_staged_rollouts`, rollout by rollout: its files and its counts.
use codex_shuttle.Prelude.{
  ℕ, ◌+◌, String, ◌≡◌, refl, subst, sym, ap, ◌∙◌, inl, inr, Bool, List, [], ◌∷◌, none, some, arith,
  ◌==◌, string_eq, length, ok, or_fail, Bool-cases, Result-cases, >>=-eq-ok, or_fail-eq-ok,
}
use text.Mathlib.TextEquality.{eq_iff}
use codex_shuttle.Prelude.Assoc.{lookup, insert, lookup-insert}
use codex_shuttle.Sessions.{io_failed, RolloutCodec, Files}
use codex_shuttle.Sessions.Rollout.{RolloutMeta, inspect_and_rewrite}
use codex_shuttle.Sessions.Import.{
  SyncReport, Import, fresh, verdict, import_path, import_paths, index_sessions, start_import,
  import_staged_rollouts, list_local_rollouts, Home,
}
use codex_shuttle.Sessions.Import.Verdicts.{
  Keeps, IsImported, verdict-fresh, counted, Step, import_file-Step, insert_keeps,
}

module _ (codec : RolloutCodec) (installed : String → Bool) (provider : String)
    (staging : Files) where
  -- New files come from the staging directory, and no old file is touched.
  abbrev Added : Import → Files → Type 0
  Added state after =
      Keeps state.files after
      × ((path : String) (contents : List ℕ)
          → lookup path state.files ≡ none
          → lookup path after ≡ some contents
          → IsImported codec provider staging state.local_ids path contents)

  import_path-ok :
      (path : String) (state next : Import)
      → import_path codec installed provider staging path state ≡ ok next
      → (staged : List ℕ) × (meta : RolloutMeta) × (updated : List ℕ) × (lookup path staging
          ≡ some staged)
        × (inspect_and_rewrite codec (some provider) staged ≡ ok (meta, updated))
        × Step (verdict meta.id path state) path updated state next
  unfolding import_path
  import_path-ok path state next h =
      let (staged, found, h₁) = >>=-eq-ok (or_fail (lookup path staging) io_failed) _ h in
      let (pair, inspected, h₂) =
        >>=-eq-ok (inspect_and_rewrite codec (some provider) staged) _ h₁ in
      (
        staged,
        pair.0,
        pair.1,
        or_fail-eq-ok _ io_failed found,
        inspected,
        import_file-Step (installed path) (verdict pair.0.id path state) path pair.0 pair.1 state
            next h₂,
      )

  Added-grown :
      (path : String) (meta : RolloutMeta) (staged updated : List ℕ) (state next : Import)
      (after : Files)
      → lookup path staging ≡ some staged
      → inspect_and_rewrite codec (some provider) staged ≡ ok (meta, updated)
      → verdict meta.id path state ≡ fresh
      → next.files ≡ insert path updated state.files
      → ((id : String) → lookup id next.local_ids ≡ none → lookup id state.local_ids ≡ none)
      → Added next after
      → Added state after
  Added-grown path meta staged updated state next after found inspected was_fresh same ids
        (keeps, added) =
      let (unknown, absent) = verdict-fresh meta.id path state was_fresh in
      (
        λ other contents k. keeps other contents (
            ap (lookup other) same ∙ insert_keeps path other updated contents state.files absent k),
        λ other contents k l. elim (Bool-cases (path == other)) [
          | inl here ↦
              let e = (eq_iff path other).0 here in
              let kept =
                keeps other updated
                  (ap (lookup other) same ∙ rw (lookup-insert path other, here) refl) in
              let contents_eq : updated ≡ contents = ground (arith, kept, l) in
              (
                staged,
                meta,
                ap (λ p. lookup p staging) (sym e) ∙ found,
                subst (λ c. inspect_and_rewrite codec (some provider) staged ≡ ok (meta, c))
                    contents_eq inspected,
                unknown,
              )
          | inr differ ↦
              let (s, m, f, i, n) =
                added other contents
                  (ap (lookup other) same ∙ rw (lookup-insert path other, differ) k) l in
              (s, m, f, i, ids m.id n)
        ],
      )

  Added-next :
      (path : String) (state next : Import) (after : Files)
      → import_path codec installed provider staging path state ≡ ok next
      → Added next after
      → Added state after
  Added-next path state next after h (keeps, added) =
      let (staged, meta, updated, found, inspected, (count, files, ids, grown)) =
        import_path-ok path state next h in
      elim grown [
        | inl same ↦ (
          λ other contents k. keeps other contents (ap (lookup other) same ∙ k),
          λ other contents k l.
              let (s, m, f, i, n) = added other contents (ap (lookup other) same ∙ k) l in
              (s, m, f, i, ids m.id n),
        )
        | inr (was_fresh, same) ↦
            Added-grown path meta staged updated state next after found inspected was_fresh same ids
              (keeps, added)
      ]

  import_paths-Added :
      (paths : List String) (state : Import)
      → Added state (import_paths codec installed provider staging paths state).1
  unfolding import_paths
  import_paths-Added [] state = ((λ path contents k. k), λ path contents h k. cc)
  import_paths-Added (path ∷ paths) state =
      elim (Result-cases (import_path codec installed provider staging path state)) [
        | inr (e, failed) ↦
            rw (import_paths, failed) ((λ path contents k. k), λ path contents h k. cc)
        | inl (next, went) ↦
            rw (import_paths, went)
              (Added-next path state next _ went (import_paths-Added paths next))
      ]

  import_paths-counted :
      (paths : List String) (state : Import) (report : SyncReport)
      → (import_paths codec installed provider staging paths state).0 ≡ ok report
      → (counted report ≡ counted state.report + length paths)
        × (report.remote_files ≡ state.report.remote_files)
  unfolding import_paths
  import_paths-counted [] state report h =
      let same : state.report ≡ report = ground arith in
      subst
        (λ r. (counted r ≡ counted state.report + 0) × (r.remote_files ≡ state.report.remote_files))
        same (omega arith, refl)
  import_paths-counted (path ∷ paths) state report h =
      elim (Result-cases (import_path codec installed provider staging path state)) [
        | inr (e, failed) ↦ cc (rw (import_paths, failed) at h)
        | inl (next, went) ↦
            let (total, files) =
              import_paths-counted paths next report (rw (import_paths, went) at h) in
            let (staged, meta, updated, found, inspected, (count, remote, ids, grown)) =
              import_path-ok path state next went in
            (omega (arith, total, count), files ∙ remote)
      ]

-- The files of an import: no old one is touched, and a new one is of a session that is not indexed.
pub import_staged_rollouts-Added :
    (codec : RolloutCodec) (installed : String → Bool) (home : Home) (files staging : Files)
    (remote_files : List String) (provider : String) (local_ids : List (String × String))
    → index_sessions codec installed files (list_local_rollouts home) [] ≡ ok local_ids
    → Keeps files
        (import_staged_rollouts codec installed home files staging remote_files provider).1
      × ((path : String) (contents : List ℕ)
          → lookup path files ≡ none
          → lookup path
              (import_staged_rollouts codec installed home files staging remote_files provider).1
            ≡ some contents
          → IsImported codec provider staging local_ids path contents)
unfolding import_staged_rollouts
import_staged_rollouts-Added codec installed home files staging remote_files provider local_ids h =
    rw h (import_paths-Added codec installed provider staging remote_files _)

-- A finished import counts every remote file once: as imported, as a duplicate or as a conflict.
pub import_staged_rollouts-counted :
    (codec : RolloutCodec) (installed : String → Bool) (home : Home) (files staging : Files)
    (remote_files : List String) (provider : String) (report : SyncReport)
    → (import_staged_rollouts codec installed home files staging remote_files provider).0
      ≡ ok report
    → (report.imported + report.duplicates + report.conflicts ≡ length remote_files)
      × (report.remote_files ≡ length remote_files)
unfolding import_staged_rollouts
import_staged_rollouts-counted codec installed home files staging remote_files provider report h =
    elim (Result-cases (index_sessions codec installed files (list_local_rollouts home) [])) [
      | inr (e, failed) ↦ cc (rw failed at h)
      | inl (local_ids, indexed) ↦
          let (total, files_eq) =
            import_paths-counted codec installed provider staging remote_files
              (start_import local_ids files remote_files provider) report (rw indexed at h) in
          (omega (arith, total), files_eq)
    ]
