-- ===== src/Core/Store/Tests.antt =====
-- The theorems on `ProfileStore` at a concrete profile.
use codex_shuttle.Prelude.{
  ◌≡◌, refl, ◌≢◌, String, Bool, true, false, [], ◌∷◌, none, some, ok, err, string_eq,
}
use codex_shuttle.Prelude.Text.{bytes}
use codex_shuttle.Prelude.Assoc.{lookup, insert}
use codex_shuttle.Core.Names.{
  validate_profile_name, is_name_byte, is_ascii_alphanumeric, validate_host_alias,
  is_ascii_whitespace, ensure_unix_socket_path_is_short,
}
use codex_shuttle.Core.Profile.{Profile, prepared}
use codex_shuttle.Core.Scope.{enabled_scope}
use codex_shuttle.Core.Paths.{AppPaths, profile_dir, join}
use codex_shuttle.Core.Store.{
  StoreCodec, Draws, Directory, Store, directory, empty, io_failed, load, save, load_session_scope,
  save_session_scope, map_err,
}
use codex_shuttle.Core.Store.Create.{exists, create_prepared, save_new}
use codex_shuttle.Core.Store.RoundTrip.{load-save}
use codex_shuttle.Core.Store.Rollback.{load-create_prepared, save_new-remove_profile}

abbrev paths : AppPaths
paths = record {
  state_root = "/s";
  ssh_config = "/h/.ssh/config";
  managed_ssh_config = "/h/.ssh/codex-shuttle.conf";
  default_codex_home = "/h/.codex";
}

abbrev draws : Bool → Draws
draws scope_written = record {
  token = some "t";
  remote_id = some "0a";
  local_port = some 4000;
  remote_port = some 40000;
  profile_written = true;
  scope_written = scope_written;
}

abbrev gpu : Profile
gpu = record {
  schema_version = 1;
  name = "gpu";
  source_host = "box";
  app_alias = "cxs-gpu";
  status = prepared;
  codex_version = "1";
  local_socket = "/s/profiles/gpu/bridge.sock";
  remote_socket = "/tmp/cxs-0a.sock";
  environment_id = "cxs-gpu";
  local_exec_port = 4000;
  remote_exec_port = 40000;
  token_file = "/s/profiles/gpu/bridge.token";
  codex_home = "/h/.codex";
  installed_target = none;
  remote_home = none;
  remote_release = none;
  package_sha256 = none;
  shim_sha256 = none;
  executor_source = none;
  executor_path = none;
}

-- A codec for this profile and for the scope of a new one.
abbrev codec : StoreCodec
codec = record {
  profile_text = λ p. "profile";
  read_profile = λ s. some gpu;
  scope_text = λ scope. "scope";
  read_scope = λ s. some enabled_scope;
}

abbrev with_profile : Directory
with_profile = record empty { profile_json = some "profile" }

abbrev with_scope : Directory
with_scope = record empty { session_scope_json = some "scope" }

load-save_example :
    (load codec "gpu" (("gpu", directory with_profile) ∷ []) ≡ ok gpu)
    × (load_session_scope codec "gpu" (("gpu", directory with_profile) ∷ [])
        ≡ load_session_scope codec "gpu" [])
    × ((k : String) → k ≢ "gpu" → lookup k (("gpu", directory with_profile) ∷ []) ≡ lookup k [])
unfolding save validate_profile_name bytes is_ascii_alphanumeric is_name_byte lookup insert
load-save_example =
    load-save codec true gpu [] (("gpu", directory with_profile) ∷ []) refl refl refl

abbrev whole : Store
whole =
    (
      "gpu",
      directory (record {
        profile_json = some "profile";
        session_scope_json = some "scope";
        bridge_token = some "t";
      }),
    )
    ∷ []

load-create_prepared_example :
    (exists codec paths (draws true) "gpu" [] ≡ false)
    × (load codec "gpu" whole ≡ ok gpu)
    × (load_session_scope codec "gpu" whole ≡ ok (some enabled_scope))
    × ((k : String) → k ≢ "gpu" → lookup k whole ≡ lookup k [])
unfolding create_prepared validate_profile_name bytes is_ascii_alphanumeric is_name_byte
    validate_host_alias is_ascii_whitespace lookup ensure_unix_socket_path_is_short join profile_dir
    save insert save_session_scope
load-create_prepared_example =
    load-create_prepared codec paths (draws true) refl "gpu" "box" "1" [] whole gpu refl refl

save_new-remove_profile_example :
    (t : Store) × (save_new codec paths (draws false) (ok gpu) (("gpu", directory empty) ∷ [])
      ≡ (err io_failed, t))
    × (lookup "gpu" t ≡ none)
    × ((k : String) → k ≢ "gpu" → lookup k t ≡ lookup k (("gpu", directory empty) ∷ []))
unfolding map_err validate_profile_name bytes is_ascii_alphanumeric is_name_byte lookup
save_new-remove_profile_example =
    save_new-remove_profile codec paths (draws false) gpu empty (("gpu", directory empty) ∷ []) refl
      refl refl refl
