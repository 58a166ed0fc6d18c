-- ===== src/Core/Store.antt =====
-- crates/cxs-core/src/lib.rs: `ProfileStore` (Unix). The state is what stands under `profiles`: for
-- each name a directory with its files, or something else. Whether a write reaches the disk, and what
-- is drawn at random, is an argument; writing and reading the files' JSON is a parameter.
pub mod Create
mod Tests
pub mod RoundTrip
pub mod Rollback
use Prim.Native.Nat.{Ordering}
use Prim.Native.String.{◌++◌, compare}
use codex_shuttle.Prelude.{
  ℕ, String, Bool, true, false, List, [], ◌∷◌, Option, none, some, ◌==◌, nat_eq, string_eq,
  if◌then◌else◌, Result, ok, err, ◌>>=◌, ◌>>◌, or_fail,
}
use codex_shuttle.Prelude.Assoc.{lookup, insert, remove}
use codex_shuttle.Core.Names.{
  NameError, HostError, ThreadIdError, SocketPathError, validate_profile_name, validate_host_alias,
  validate_thread_id, ensure_unix_socket_path_is_short,
}
use codex_shuttle.Core.Profile.{Profile, ProfileStatus, prepared, profile_schema_version}
use codex_shuttle.Core.Scope.{SessionScope, session_scope_schema_version, enabled_scope}
use codex_shuttle.Core.Paths.{AppPaths, profile_dir, join}

pub data StoreError : Type 0 where
  bad_name : NameError → StoreError
  bad_host : HostError → StoreError
  bad_thread : ThreadIdError → StoreError
  bad_socket_path : SocketPathError → StoreError
  already_exists does_not_exist not_a_directory io_failed : StoreError
  profile_missing profile_unparsable profile_unsupported profile_mismatch : StoreError
  scope_unparsable scope_unsupported : StoreError

pub record Directory : Type 0 where
  pub profile_json : Option String
  pub session_scope_json : Option String
  pub bridge_token : Option String

abbrev pub empty : Directory
empty = record { profile_json = none; session_scope_json = none; bridge_token = none }

pub data Entry : Type 0 where
  directory : Directory → Entry
  other : Entry

abbrev pub Store : Type 0
Store = List (String × Entry)

-- A call's result, and the files afterwards, also after an error.
abbrev pub Outcome : Type 0 → Type 0
Outcome A = Result StoreError A × Store

unfoldable pub map_err {ℓ} : {E F : Type 0} {A : Type ℓ} → (E → F) → Result E A → Result F A
map_err f (ok a) = ok a
map_err f (err e) = err (f e)

unfoldable pub after :
    {A : Type 0} → Result StoreError (Unit {0}) → (Store → Outcome A) → Store → Outcome A
after (ok _) f s = f s
after (err e) f s = (err e, s)

abbrev pub checked_name : String → Result StoreError (Unit {0})
checked_name name = map_err bad_name (validate_profile_name name)

unfoldable pub private_dir_at : Option Entry → String → Store → Outcome Directory
private_dir_at none name s = (ok empty, insert name (directory empty) s)
private_dir_at (some (directory d)) name s = (ok d, s)
private_dir_at (some other) name s = (err not_a_directory, s)

unfoldable pub create_private_dir : String → Store → Outcome Directory
unfolding private_dir_at
create_private_dir name s = private_dir_at (lookup name s) name s

-- The temporary file takes the place of the destination, if it could be written and persisted.
unfoldable pub replace :
    Bool → String → (Directory → Directory) → Outcome Directory → Outcome (Unit {0})
replace true name f (ok d, s) = (ok tt, insert name (directory (f d)) s)
replace false name f (ok d, s) = (err io_failed, s)
replace _ name f (err e, s) = (err e, s)

unfoldable pub text_of : (Directory → Option String) → Option Entry → Option String
text_of field (some (directory d)) = field d
text_of field _ = none

unfoldable pub check_thread_ids : List String → Result StoreError (Unit {0})
check_thread_ids [] = ok tt
check_thread_ids (t ∷ ts) = (map_err bad_thread (validate_thread_id t) >> check_thread_ids ts)

pub record StoreCodec : Type 0 where
  pub profile_text : Profile → String
  pub read_profile : String → Option Profile
  pub scope_text : SessionScope → String
  pub read_scope : String → Option SessionScope

-- The token, the random part of the remote socket and the two ports; `none` is a failure to get one.
-- Then whether the files of the profile and of its scope could be written.
pub record Draws : Type 0 where
  pub token : Option String
  pub remote_id : Option String
  pub local_port : Option ℕ
  pub remote_port : Option ℕ
  pub profile_written : Bool
  pub scope_written : Bool

unfoldable pub remove_at : Option Entry → String → Store → Outcome (Unit {0})
remove_at none name s = (err does_not_exist, s)
remove_at (some other) name s = (err not_a_directory, s)
remove_at (some (directory d)) name s = (ok tt, remove name s)

-- `ProfileStore::remove`; the removal of a directory succeeds.
unfoldable pub remove_profile : String → Store → Outcome (Unit {0})
unfolding after remove_at map_err
remove_profile name s = after (checked_name name) (λ s'. remove_at (lookup name s') name s') s

module _ (codec : StoreCodec) where
  unfoldable pub check_profile : String → Profile → Result StoreError Profile
  check_profile name p =
      if p.schema_version == profile_schema_version
      then (if p.name == name then ok p else err profile_mismatch)
      else err profile_unsupported

  unfoldable pub load : String → Store → Result StoreError Profile
  unfolding text_of check_profile map_err
  load name s = do
    checked_name name
    text ← or_fail (text_of (λ d. d.profile_json) (lookup name s)) profile_missing
    p ← or_fail (codec.read_profile text) profile_unparsable
    check_profile name p

  unfoldable pub save : Bool → Profile → Store → Outcome (Unit {0})
  unfolding after replace create_private_dir map_err
  save written p s =
      after (checked_name p.name)
        (λ s'.
          replace written p.name (λ d. record d { profile_json = some (codec.profile_text p) })
            (create_private_dir p.name s'))
        s

  unfoldable pub read_session_scope : Option String → Result StoreError (Option SessionScope)
  read_session_scope none = ok none
  read_session_scope (some text) = do
    scope ← or_fail (codec.read_scope text) scope_unparsable
    if scope.schema_version == session_scope_schema_version
        then ok (some scope)
        else err scope_unsupported

  unfoldable pub load_session_scope : String → Store → Result StoreError (Option SessionScope)
  unfolding read_session_scope text_of map_err
  load_session_scope name s = do
    checked_name name
    read_session_scope (text_of (λ d. d.session_scope_json) (lookup name s))

  unfoldable pub check_scope : SessionScope → Result StoreError (Unit {0})
  unfolding check_thread_ids
  check_scope scope =
      if scope.schema_version == session_scope_schema_version
      then check_thread_ids scope.thread_ids
      else err scope_unsupported

  unfoldable pub save_session_scope : Bool → String → SessionScope → Store → Outcome (Unit {0})
  unfolding after replace create_private_dir check_scope map_err
  save_session_scope written name scope s =
      after (checked_name name >> check_scope scope)
        (λ s'.
          replace written name
            (λ d. record d { session_scope_json = some (codec.scope_text scope) })
            (create_private_dir name s'))
        s
