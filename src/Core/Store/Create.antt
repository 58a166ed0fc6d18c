-- ===== src/Core/Store/Create.antt =====
-- crates/cxs-core/src/lib.rs: `ProfileStore::create_prepared` and `ProfileStore::list`.
use Prim.Native.Nat.{Ordering}
use Prim.Native.String.{◌++◌, compare}
use codex_shuttle.Prelude.{
  ℕ, String, Bool, true, false, List, [], ◌∷◌, Option, none, some, Result, ok, err, ◌>>=◌, or_fail,
}
use codex_shuttle.Prelude.Assoc.{lookup, insert}
use codex_shuttle.Core.Names.{validate_host_alias, ensure_unix_socket_path_is_short}
use codex_shuttle.Core.Profile.{Profile, prepared, profile_schema_version}
use codex_shuttle.Core.Scope.{enabled_scope}
use codex_shuttle.Core.Paths.{AppPaths, profile_dir, join}
use codex_shuttle.Core.Store.{
  StoreError, bad_host, bad_socket_path, already_exists, io_failed, empty, directory, other, Store,
  Outcome, map_err, after, checked_name, StoreCodec, Draws, remove_profile, load, save,
  save_session_scope,
}

module _ (codec : StoreCodec) (paths : AppPaths) (draws : Draws) where
  unfoldable pub prepared_profile : String → String → String → String → ℕ → ℕ → Profile
  prepared_profile name host version remote_id local_port remote_port = record {
    schema_version = profile_schema_version;
    name = name;
    source_host = host;
    app_alias = "cxs-" ++ name;
    status = prepared;
    codex_version = version;
    local_socket = join (profile_dir paths name) "bridge.sock";
    remote_socket = "/tmp/cxs-" ++ remote_id ++ ".sock";
    environment_id = "cxs-" ++ name;
    local_exec_port = local_port;
    remote_exec_port = remote_port;
    token_file = join (profile_dir paths name) "bridge.token";
    codex_home = paths.default_codex_home;
    installed_target = none;
    remote_home = none;
    remote_release = none;
    package_sha256 = none;
    shim_sha256 = none;
    executor_source = none;
    executor_path = none;
  }

  -- The random part and the ports, in the order in which they are asked for.
  unfoldable pub draw_profile : String → String → String → Result StoreError Profile
  unfolding prepared_profile
  draw_profile name host version = do
    remote_id ← or_fail draws.remote_id io_failed
    local_port ← or_fail draws.local_port io_failed
    remote_port ← or_fail draws.remote_port io_failed
    ok (prepared_profile name host version remote_id local_port remote_port)

  -- If the scope could not be saved, the new profile is removed again.
  unfoldable pub or_remove : Profile → Outcome (Unit {0}) → Outcome Profile
  unfolding remove_profile
  or_remove p (ok _, s) = (ok p, s)
  or_remove p (err e, s) = (err e, (remove_profile p.name s).1)

  unfoldable pub save_scope_of : Profile → Outcome (Unit {0}) → Outcome Profile
  unfolding or_remove
  save_scope_of p (ok _, s) =
      or_remove p (save_session_scope codec draws.scope_written p.name enabled_scope s)
  save_scope_of p (err e, s) = (err e, s)

  unfoldable pub save_new : Result StoreError Profile → Store → Outcome Profile
  unfolding save_scope_of
  save_new (ok p) s = save_scope_of p (save codec draws.profile_written p s)
  save_new (err e) s = (err e, s)

  unfoldable pub with_token : Option String → String → String → String → Store → Outcome Profile
  unfolding save_new draw_profile
  with_token none name host version s = (err io_failed, s)
  with_token (some t) name host version s =
      save_new (draw_profile name host version)
        (insert name (directory (record empty { bridge_token = some t })) s)

  unfoldable pub create_at : Bool → String → String → String → Store → Outcome Profile
  unfolding with_token after map_err
  create_at true name host version s = (err already_exists, s)
  create_at false name host version s =
      after
        (map_err bad_socket_path
          (ensure_unix_socket_path_is_short (join (profile_dir paths name) "bridge.sock")))
        (with_token draws.token name host version) (insert name (directory empty) s)

  unfoldable pub exists : String → Store → Bool
  exists name s = elim (lookup name s) [ none ↦ false | some e ↦ true ]

  unfoldable pub create_prepared : String → String → String → Store → Outcome Profile
  unfolding create_at exists
  create_prepared name host version s =
      after (checked_name name)
        (after (map_err bad_host (validate_host_alias host))
          (λ s'. create_at (exists name s') name host version s'))
        s

-- `profiles.sort_by(|left, right| left.name.cmp(&right.name))`
unfoldable pub insert_by_name : Profile → List Profile → List Profile
insert_by_name p [] = p ∷ []
insert_by_name p (q ∷ qs) =
    let rest = insert_by_name p qs in
    elim (compare p.name q.name) [
      | Ordering.gt ↦ q ∷ rest
      | Ordering.eq ↦ p ∷ q ∷ qs
      | Ordering.lt ↦ p ∷ q ∷ qs
    ]

-- Every directory under `profiles` is loaded; anything else there is passed over.
unfoldable pub list_in : StoreCodec → List String → Store → Result StoreError (List Profile)
unfolding insert_by_name
list_in codec [] s = ok []
list_in codec (name ∷ names) s = do
  p ← load codec name s
  rest ← list_in codec names s
  ok (insert_by_name p rest)

unfoldable pub directory_names : Store → List String
directory_names [] = []
directory_names ((name, directory d) ∷ s) = name ∷ directory_names s
directory_names ((name, other) ∷ s) = directory_names s

unfoldable pub list : StoreCodec → Store → Result StoreError (List Profile)
unfolding list_in directory_names
list codec s = list_in codec (directory_names s) s
