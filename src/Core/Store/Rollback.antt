-- ===== src/Core/Store/Rollback.antt =====
-- `create_prepared`: the store after it, when it succeeds and when the scope cannot be saved.
use text.Mathlib.TextEquality.{eq_iff}
use codex_shuttle.Prelude.{
  ◌≡◌, refl, sym, ap, ◌∙◌, ◌≢◌, String, Bool, true, false, Option, none, some, arith, string_eq,
  Result, ok, err, >>=-eq-ok, or_fail,
}
use codex_shuttle.Prelude.Assoc.{lookup, insert, remove, lookup-remove}
use codex_shuttle.Core.Names.{validate_host_alias, ensure_unix_socket_path_is_short}
use codex_shuttle.Core.Profile.{Profile, profile_schema_version}
use codex_shuttle.Core.Scope.{enabled_scope}
use codex_shuttle.Core.Paths.{AppPaths, profile_dir, join}
use codex_shuttle.Core.Store.{
  StoreError, bad_host, bad_socket_path, io_failed, Directory, Entry, empty, directory, Store,
  Outcome, map_err, after, checked_name, StoreCodec, Draws, load, save, load_session_scope,
  save_session_scope, remove_profile, replace, create_private_dir, private_dir_at, check_scope,
  check_thread_ids, remove_at,
}
use codex_shuttle.Core.Store.Create.{
  prepared_profile, draw_profile, or_remove, save_scope_of, save_new, with_token, create_at, exists,
  create_prepared,
}
use codex_shuttle.Core.Store.RoundTrip.{
  ReadsProfile, ReadsScope, after-ok, load-save, load_session_scope-save_session_scope, insert_lem,
}

module _ (codec : StoreCodec) (paths : AppPaths) (draws : Draws)
    (reads_scope : ReadsScope codec enabled_scope) where
  -- What a successful creation comes to: the name is new, and both files read back.
  abbrev Created : String → Profile → Store → Store → Type 0
  Created name p s t =
      (load codec name t ≡ ok p)
      × (load_session_scope codec name t ≡ ok (some enabled_scope))
      × ((k : String) → k ≢ name → lookup k t ≡ lookup k s)

  drawn :
      (name host version : String) (p : Profile)
      → draw_profile codec paths draws name host version ≡ ok p
      → (p.name ≡ name) × (p.schema_version ≡ profile_schema_version)
  unfolding draw_profile prepared_profile
  drawn name host version p h =
      let (i, _, h₁) = >>=-eq-ok (or_fail draws.remote_id io_failed) _ h in
      let (l, _, h₂) = >>=-eq-ok (or_fail draws.local_port io_failed) _ h₁ in
      let (r, _, h₃) = >>=-eq-ok (or_fail draws.remote_port io_failed) _ h₂ in
      (ground arith, ground arith)

  or_remove-ok :
      (p p' : Profile) (o : Outcome (Unit {0})) (t : Store)
      → or_remove codec paths draws p o ≡ (ok p', t)
      → (o ≡ (ok tt, t)) × (p ≡ p')
  unfolding or_remove
  or_remove-ok p p' (ok tt, s) t h = (ap (λ x. (ok tt, x.1)) h, cc (ap (λ x. x.0) h))
  or_remove-ok p p' (err e, s) t h = cc (ap (λ x. x.0) h)

  saved :
      (p p' : Profile) (o : Outcome (Unit {0})) (t : Store)
      → save_scope_of codec paths draws p o ≡ (ok p', t)
      → (u : Store) × (o ≡ (ok tt, u))
        × (p ≡ p')
        × (save_session_scope codec draws.scope_written p.name enabled_scope u ≡ (ok tt, t))
  unfolding save_scope_of
  saved p p' (ok tt, u) t h = let (done, same) = or_remove-ok p p' _ t h in (u, refl, same, done)
  saved p p' (err e, u) t h = cc (ap (λ x. x.0) h)

  save_new-Created :
      (r : Result StoreError Profile) (name host version : String) (s t : Store) (p : Profile)
      → ReadsProfile codec p
      → r ≡ draw_profile codec paths draws name host version
      → save_new codec paths draws r s ≡ (ok p, t)
      → Created name p s t
  unfolding save_new
  save_new-Created (err e) name host version s t p reads d h = cc (ap (λ x. x.0) h)
  save_new-Created (ok q) name host version s t p reads d h =
      let (named, current) = drawn name host version q (sym d) in
      let (u, first, same, second) = saved q p (save codec draws.profile_written q s) t h in
      let (loads, scope_kept, others) =
        load-save codec draws.profile_written q s u (rw same reads) current first in
      let (scoped, profile_kept, others') =
        load_session_scope-save_session_scope codec draws.scope_written q.name enabled_scope u t
          reads_scope second in
      rw (← same) (rw (← named) (profile_kept ∙ loads, scoped, λ k n. others' k n ∙ others k n))

  -- What stood under the new name does not matter.
  insert-Created :
      (name : String) (e : Entry) (s t : Store) (p : Profile)
      → Created name p (insert name e s) t
      → Created name p s t
  insert-Created name e s t p (loads, scoped, others) =
      (loads, scoped, λ k n. others k n ∙ (insert_lem name k e s).1 n)

  with_token-Created :
      (o : Option String) (name host version : String) (s t : Store) (p : Profile)
      → ReadsProfile codec p
      → with_token codec paths draws o name host version s ≡ (ok p, t)
      → Created name p s t
  unfolding with_token
  with_token-Created none name host version s t p reads h = cc (ap (λ x. x.0) h)
  with_token-Created (some w) name host version s t p reads h =
      insert-Created name (directory (record empty { bridge_token = some w })) s t p (
        save_new-Created (draw_profile codec paths draws name host version) name host version _ t p
          reads refl h)

  create_at-Created :
      (b : Bool) (name host version : String) (s t : Store) (p : Profile)
      → ReadsProfile codec p
      → create_at codec paths draws b name host version s ≡ (ok p, t)
      → (b ≡ false) × Created name p s t
  unfolding create_at
  create_at-Created true name host version s t p reads h = cc (ap (λ x. x.0) h)
  create_at-Created false name host version s t p reads h =
      let (_, done) =
        after-ok
          (map_err bad_socket_path
            (ensure_unix_socket_path_is_short (join (profile_dir paths name) "bridge.sock")))
          _ (insert name (directory empty) s) t p h in
      (
        refl,
        insert-Created name (directory empty) s t p
            (with_token-Created draws.token name host version _ t p reads done),
      )

  -- A profile that was created is new, and, if its JSON and that of the scope read back, it loads as
  -- it was returned, with the enabled scope that has no threads; nothing else has changed.
  pub load-create_prepared :
      (name host version : String) (s t : Store) (p : Profile)
      → ReadsProfile codec p
      → create_prepared codec paths draws name host version s ≡ (ok p, t)
      → (exists codec paths draws name s ≡ false)
        × (load codec name t ≡ ok p)
        × (load_session_scope codec name t ≡ ok (some enabled_scope))
        × ((k : String) → k ≢ name → lookup k t ≡ lookup k s)
  unfolding create_prepared
  load-create_prepared name host version s t p reads h =
      let (_, h₁) = after-ok (checked_name name) _ s t p h in
      let (_, h₂) = after-ok (map_err bad_host (validate_host_alias host)) _ s t p h₁ in
      let (new, made) = create_at-Created _ name host version s t p reads h₂ in
      let (loads, scoped, others) = made in (new, loads, scoped, others)

module _ (codec : StoreCodec) (paths : AppPaths) (draws : Draws) where
  scope_fails :
      (name : String) (d : Directory) (s : Store)
      → checked_name name ≡ ok tt
      → lookup name s ≡ some (directory d)
      → save_session_scope codec false name enabled_scope s ≡ (err io_failed, s)
  unfolding save_session_scope after replace create_private_dir private_dir_at check_scope
      check_thread_ids
  scope_fails name d s valid found = rw (valid, found) refl

  removes :
      (name : String) (d : Directory) (s : Store)
      → checked_name name ≡ ok tt
      → lookup name s ≡ some (directory d)
      → (remove_profile name s).1 ≡ remove name s
  unfolding remove_profile after remove_at
  removes name d s valid found = rw (valid, found) refl

  saves :
      (p : Profile) (d : Directory) (s : Store)
      → checked_name p.name ≡ ok tt
      → lookup p.name s ≡ some (directory d)
      → save codec true p s ≡ (
        ok tt,
        insert p.name (directory (record d { profile_json = some (codec.profile_text p) })) s,
      )
  unfolding save after replace create_private_dir private_dir_at
  saves p d s valid found = rw (valid, found) refl

  -- When the profile file of a new profile, whose directory is there, has been written, but the file
  -- of its session scope cannot be, the creation fails with that error, nothing is left under its
  -- name, and all that stands under other names is as before.
  pub save_new-remove_profile :
      (p : Profile) (d : Directory) (s : Store)
      → checked_name p.name ≡ ok tt
      → lookup p.name s ≡ some (directory d)
      → draws.profile_written ≡ true
      → draws.scope_written ≡ false
      → (t : Store) × (save_new codec paths draws (ok p) s ≡ (err io_failed, t))
        × (lookup p.name t ≡ none)
        × ((k : String) → k ≢ p.name → lookup k t ≡ lookup k s)
  unfolding save_new save_scope_of or_remove
  save_new-remove_profile p d s valid found written failed =
      let e = directory (record d { profile_json = some (codec.profile_text p) }) in
      let u = insert p.name e s in
      let there = (insert_lem p.name p.name e s).0 in
      (
        remove p.name u,
        rw (written, saves p d s valid found)
            (rw (failed, scope_fails p.name _ u valid there)
              (rw (removes p.name _ u valid there) refl)),
        ground (arith, lookup-remove p.name p.name u, eq_iff p.name p.name),
        λ k n.
            ground
              (arith, lookup-remove p.name k u, eq_iff p.name k, (insert_lem p.name k e s).1 n),
      )
