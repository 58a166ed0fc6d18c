-- ===== src/Sessions/Tests.antt =====
-- The theorems on crates/cxs-sessions at concrete inputs, with a JSON codec that knows two records.
use codex_shuttle.Prelude.Strings.{is_empty, to_ascii_lowercase}
use Prim.Native.String.{◌++◌}
use codex_shuttle.Prelude.{
  Result, All, ℕ, ◌≤◌, String, Bool, ◌≡◌, refl, false, true, List, [], ◌∷◌, ◌++◌ as list_append,
  none, some, ◌==◌, string_eq, if◌then◌else◌, any, length, arith, ok,
}
use codex_shuttle.Prelude.Assoc.{lookup, insert}
use codex_shuttle.Prelude.Text.{bytes}
use codex_shuttle.Core.Paths.{join}
use codex_shuttle.Json.{
  Value, string, object, end, field, value_eq, get_field, insert_field, then_str,
}
use codex_shuttle.Mux.Channel.{bytes_eq}
use codex_shuttle.Sessions.{SessionError, database_failed, RolloutCodec, Files, session_dirs}
use codex_shuttle.Sessions.Names.{components, shell_quote, validate_rollout_path}
use codex_shuttle.Sessions.Names.Shell.{shell_word, shell_word-shell_quote}
use codex_shuttle.Sessions.Names.Paths.{normals, validate_rollout_path-join}
use codex_shuttle.Sessions.Archive.{ArchiveEntry, Received, regular, receive_entries}
use codex_shuttle.Sessions.Archive.Bounds.{IsBounded, receive_entries-IsBounded}
use codex_shuttle.Sessions.Rollout.{
  RolloutMeta, split_first, is_encrypted, inspect_and_rewrite, session_payload, set_provider,
  strip_cr,
}
use codex_shuttle.Sessions.Rollout.Rewritten.{inspect_and_rewrite-target}
use codex_shuttle.Sessions.Import.{
  Home, SyncReport, import_staged_rollouts, index_sessions, list_local_rollouts,
}
use codex_shuttle.Sessions.Import.Verdicts.{Keeps}
use codex_shuttle.Sessions.Import.Known.{IsNew, import_staged_rollouts-Keeps}
use codex_shuttle.Sessions.Apply.{State}
use codex_shuttle.Sessions.Changes.{Faults, RolloutChange}
use codex_shuttle.Sessions.Repair.{RepairReport, repair_rollouts}
use codex_shuttle.Sessions.Repair.Rollback.{Unchanged, repair_rollouts-Unchanged}
use codex_shuttle.Sessions.Repair.Repaired.{DatabaseAligned}
use codex_shuttle.Sessions.Repair.Rewrites.{ChangesInspected}
use codex_shuttle.Sessions.Repair.Aligned.{
  RolloutAligned, ThreadAligned, Lists, repair_rollouts-Aligned,
}

abbrev session : String → Value
session provider = object (
    field "payload"
      (object (field "id" (string "t") (field "model_provider" (string provider) end)))
      (field "type" (string "session_meta") end))

abbrev codec : RolloutCodec
codec = record {
  from_slice = λ line.
      if bytes_eq line (bytes "old")
      then some (session "old")
      else if bytes_eq line (bytes "new")
      then some (session "new")
      else none;
  to_vec = λ value. if value_eq value (session "new") then bytes "new" else bytes "old";
}

abbrev meta : RolloutMeta
meta = record { id = "t"; cwd = none; provider = some "old"; encrypted = false }

inspect_and_rewrite-target_example :
    (next : List ℕ) × (inspect_and_rewrite codec (some "new") (bytes "new\nrest")
      ≡ ok (
        record {
          id = "t";
          cwd = none;
          provider = some "new";
          encrypted = is_encrypted (bytes "new\nrest");
        },
        next,
      ))
    × ((split_first (bytes "new\nrest")).1 ≡ (split_first (bytes "old\nrest")).1)
unfolding bytes_eq strip_cr split_first bytes session_payload then_str get_field value_eq
    insert_field set_provider inspect_and_rewrite is_empty
inspect_and_rewrite-target_example =
    inspect_and_rewrite-target codec "new" (bytes "old\nrest") (bytes "new\nrest") meta
      (session "old") _ _ refl refl (refl, refl) refl

shell_word-shell_quote_example : shell_word (shell_quote "a'b c") ≡ some "a'b c"
shell_word-shell_quote_example = shell_word-shell_quote "a'b c"

validate_rollout_path-join_example :
    (dir : String) × (names : List String) × (any (λ known. dir == known) session_dirs ≡ true)
    × (components (join ("/" ++ "h") "sessions/1/rollout-a.jsonl")
        ≡ list_append (components ("/" ++ "h")) (normals (dir ∷ names)))
unfolding validate_rollout_path is_empty to_ascii_lowercase
validate_rollout_path-join_example =
    validate_rollout_path-join "h" "sessions/1/rollout-a.jsonl" refl

abbrev path : String
path = "sessions/rollout-a.jsonl"

abbrev entry : ArchiveEntry
entry = record { kind = regular; path = path; size = 7; contents = some (bytes "old\nr") }

abbrev received : Received
received = record { files = path ∷ []; total_bytes = 7; staging = (path, bytes "old\nr") ∷ [] }

sized : (read : List ℕ) → entry.contents ≡ some read → length read ≤ 7
unfolding bytes
sized read h = ground arith

receive_entries-IsBounded_example : IsBounded received
unfolding receive_entries is_empty to_ascii_lowercase lookup insert
receive_entries-IsBounded_example =
    receive_entries-IsBounded (some entry ∷ []) received (sized, tt) refl

abbrev no_files : Files
no_files = []

abbrev home : Home
home dir = none

abbrev counts : SyncReport
counts = record {
  remote_files = 1;
  imported = 1;
  duplicates = 0;
  conflicts = 0;
  encrypted = 0;
  provider = "new";
}

import_staged_rollouts-Keeps_example :
    Keeps no_files
      (import_staged_rollouts codec
        (λ name. true)
        home
        no_files
        received.staging
        (path ∷ [])
        "new").1
    × ((name : String) (contents : List ℕ)
        → lookup name no_files ≡ none
        → lookup name
            (import_staged_rollouts codec
              (λ other. true)
              home
              no_files
              received.staging
              (path ∷ [])
              "new").1
          ≡ some contents
        → IsNew codec no_files home "new" received.staging name contents)
unfolding index_sessions list_local_rollouts
import_staged_rollouts-Keeps_example =
    import_staged_rollouts-Keeps codec (λ name. true) home no_files received.staging (path ∷ [])
      "new" [] refl

abbrev faults : Bool → Faults
faults committed = record {
  copied = λ name. true;
  database_copied = true;
  begun = true;
  replaced = λ name. true;
  committed = committed;
  restored = λ name. true;
}

abbrev state : State
state = (
  (path, bytes "old\nr") ∷ [],
  some (record {
    columns = "id" ∷ "model_provider" ∷ "cwd" ∷ [];
    rows = record { id = "t"; model_provider = "old"; cwd = some "/c" } ∷ [];
  }),
)

abbrev report : RepairReport
report = record {
  scanned = 1;
  rollout_files_updated = 1;
  sqlite_rows_updated = 1;
  encrypted = 0;
  provider = "new";
  backed_up = true;
}

repair_rollouts-Aligned_example :
    (provider : String) × (changes : List RolloutChange) × (◌≡◌ {A = Result SessionError String}
      (ok "new")
      (ok provider))
    × All
        (RolloutAligned codec provider state.0
          (repair_rollouts codec (faults true) (ok "new") (path ∷ []) state).1.0)
        (path ∷ [])
    × ((name : String)
        → any (λ listed. listed == name) (path ∷ []) ≡ false
        → lookup name (repair_rollouts codec (faults true) (ok "new") (path ∷ []) state).1.0
          ≡ lookup name state.0)
    × All
        (ThreadAligned codec provider state.0 state.1
          (repair_rollouts codec (faults true) (ok "new") (path ∷ []) state).1.1)
        (path ∷ [])
    × ChangesInspected codec provider state.0 changes
    × All (Lists codec provider state.0 (path ∷ [])) changes
    × DatabaseAligned provider changes state.1
        (repair_rollouts codec (faults true) (ok "new") (path ∷ []) state).1.1
unfolding repair_rollouts lookup inspect_and_rewrite bytes_eq then_str get_field is_empty
repair_rollouts-Aligned_example =
    repair_rollouts-Aligned codec (faults true) (ok "new") (path ∷ []) state report refl

repair_rollouts-Unchanged_example :
    Unchanged state (repair_rollouts codec (faults false) (ok "new") (path ∷ []) state).1
unfolding repair_rollouts lookup inspect_and_rewrite bytes_eq then_str get_field is_empty insert
repair_rollouts-Unchanged_example =
    repair_rollouts-Unchanged codec (faults false) (ok "new") (path ∷ []) state database_failed
      (λ name. refl) refl
