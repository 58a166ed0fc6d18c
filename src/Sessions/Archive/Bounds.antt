-- ===== src/Sessions/Archive/Bounds.antt =====
-- `receive_remote_rollouts`: the staged files.
use codex_shuttle.Prelude.{
  ℕ, ◌+◌, ◌≤◌, ◌^◌, String, ◌≡◌, refl, subst, ap, inl, inr, not, List, [], ◌∷◌, ◌++◌ as list_append,
  Option, none, some, arith, ◌==◌, string_eq, ltb, length, All, All-append, Result, ok, guard,
  Bool-cases, Option-cases, >>=-eq-ok, guard-eq-ok,
}
use codex_shuttle.Prelude.Assoc.{lookup, insert}
use codex_shuttle.Sessions.{
  SessionError, Files, file_too_large, archive_overflow, archive_too_large,
}
use codex_shuttle.Sessions.Names.{validate_rollout_path}
use codex_shuttle.Sessions.Archive.{
  ArchiveEntry, EntryKind, directory, regular, special, Received, max_rollout_bytes,
  max_total_bytes, stage, receive_regular, receive_kind, receive_entry, receive_entries,
  nothing_received,
}

abbrev pub paths_of : Files → List String
paths_of [] = []
paths_of ((path, contents) ∷ others) = path ∷ paths_of others

abbrev pub stored_bytes : Files → ℕ
stored_bytes [] = 0
stored_bytes ((path, contents) ∷ others) = length contents + stored_bytes others

-- A tar entry gives no more bytes than its header says.
abbrev pub IsSized : Option ArchiveEntry → Type 0
IsSized none = Unit
IsSized (some entry) = (bytes : List ℕ) → entry.contents ≡ some bytes → length bytes ≤ entry.size

-- The staged files are the listed ones; each has an accepted path and at most 512 MiB, and together
-- they have at most 4 GiB.
abbrev pub IsBounded : Received → Type 0
IsBounded received =
    (paths_of received.staging ≡ received.files)
    × All (λ path. validate_rollout_path path ≡ ok tt) received.files
    × All (λ file. length file.1 ≤ max_rollout_bytes) received.staging
    × (stored_bytes received.staging ≤ received.total_bytes)
    × (received.total_bytes ≤ max_total_bytes)

insert_fresh :
    (path : String) (contents : List ℕ) (files : Files)
    → lookup path files ≡ none
    → insert path contents files ≡ list_append files ((path, contents) ∷ [])
unfolding lookup insert
insert_fresh path contents [] h = refl
insert_fresh path contents ((other, old) ∷ files) h = elim (Bool-cases (other == path)) [
  | inl same ↦ cc (rw same at h)
  | inr differ ↦ rw (differ, insert_fresh path contents files (rw differ at h)) refl
]

paths_of-append :
    (files : Files) (path : String) (contents : List ℕ)
    → paths_of (list_append files ((path, contents) ∷ []))
      ≡ list_append (paths_of files) (path ∷ [])
paths_of-append [] path contents = refl
paths_of-append ((other, old) ∷ files) path contents =
    ap (λ rest. other ∷ rest) (paths_of-append files path contents)

stored_bytes-append :
    (files : Files) (path : String) (contents : List ℕ)
    → stored_bytes (list_append files ((path, contents) ∷ []))
      ≡ stored_bytes files + length contents
stored_bytes-append [] path contents = omega arith
stored_bytes-append ((other, old) ∷ files) path contents =
    omega (arith, stored_bytes-append files path contents)

stage-ok :
    (path : String) (contents : Option (List ℕ)) (staging given : Files)
    → stage path contents staging ≡ ok given
    → (bytes : List ℕ) × (contents ≡ some bytes)
      × (given ≡ list_append staging ((path, bytes) ∷ []))
unfolding stage
stage-ok path contents staging given h = elim (Option-cases (lookup path staging)) [
  | inr (existing, present) ↦ cc (rw (stage, present) at h)
  | inl fresh ↦ elim (Option-cases contents) [
    | inl absent ↦ cc (rw (stage, fresh, absent) at h)
    | inr (bytes, read) ↦ (
      bytes,
      read,
      ground (arith, rw (stage, fresh, read) at h, insert_fresh path bytes staging fresh),
    )
  ]
]

received_inj : {a b : Received} → Path (Result SessionError Received) (ok a) (ok b) → a ≡ b
received_inj h = ground arith

receive_regular-IsBounded :
    (entry : ArchiveEntry) (received given : Received)
    → IsSized (some entry)
    → IsBounded received
    → receive_regular entry received ≡ ok given
    → IsBounded given
unfolding receive_regular
receive_regular-IsBounded entry received given sized (paths, valid, small, stored, total) h =
    let (u, accepted, h₁) = >>=-eq-ok (validate_rollout_path entry.path) _ h in
    let (u₁, fits, h₂) =
      >>=-eq-ok (guard (not (ltb max_rollout_bytes entry.size)) (file_too_large entry.path)) _ h₁ in
    let (u₂, exact, h₃) =
      >>=-eq-ok (guard (ltb (received.total_bytes + entry.size) (2 ^ 64)) archive_overflow) _ h₂ in
    let (u₃, below, h₄) =
      >>=-eq-ok
        (guard (not (ltb max_total_bytes (received.total_bytes + entry.size))) archive_too_large) _
        h₃ in
    let (staging, staged, same) =
      >>=-eq-ok (stage entry.path entry.contents received.staging) _ h₄ in
    let (bytes, read, appended) =
      stage-ok entry.path entry.contents received.staging staging staged in
    let short = sized bytes read in
    let fits' = guard-eq-ok _ (file_too_large entry.path) fits in
    let below' = guard-eq-ok _ archive_too_large below in
    subst IsBounded (received_inj same) (
      rw (appended, paths_of-append received.staging entry.path bytes, paths) refl,
      All-append _ received.files _ valid (accepted, tt),
      rw appended (All-append _ received.staging _ small (ground arith, tt)),
      rw (appended, stored_bytes-append received.staging entry.path bytes)
          (omega (arith, stored, short)),
      ground arith,
    )

receive_kind-IsBounded :
    (kind : EntryKind) (entry : ArchiveEntry) (received given : Received)
    → IsSized (some entry)
    → IsBounded received
    → receive_kind kind entry received ≡ ok given
    → IsBounded given
unfolding receive_kind
receive_kind-IsBounded directory entry received given sized bounded h =
    subst IsBounded (received_inj h) bounded
receive_kind-IsBounded special entry received given sized bounded h = cc
receive_kind-IsBounded regular entry received given sized bounded h =
    receive_regular-IsBounded entry received given sized bounded h

receive_entry-IsBounded :
    (entry : Option ArchiveEntry) (received given : Received)
    → IsSized entry
    → IsBounded received
    → receive_entry entry received ≡ ok given
    → IsBounded given
unfolding receive_entry
receive_entry-IsBounded none received given sized bounded h = cc
receive_entry-IsBounded (some entry) received given sized bounded h =
    receive_kind-IsBounded entry.kind entry received given sized bounded h

received-IsBounded :
    (entries : List (Option ArchiveEntry)) (received given : Received)
    → All IsSized entries
    → IsBounded received
    → receive_entries entries received ≡ ok given
    → IsBounded given
unfolding receive_entries
received-IsBounded [] received given sized bounded h = subst IsBounded (received_inj h) bounded
received-IsBounded (entry ∷ entries) received given (sized, others) bounded h =
    let (next, first, rest) =
      >>=-eq-ok (receive_entry entry received) (receive_entries entries) h in
    received-IsBounded entries next given others
      (receive_entry-IsBounded entry received next sized bounded first) rest

-- Whatever a remote archive holds, if it is accepted then exactly its listed files are staged, under
-- paths that `validate_rollout_path` accepts, each of at most 512 MiB, and of at most 4 GiB together.
pub receive_entries-IsBounded :
    (entries : List (Option ArchiveEntry)) (given : Received)
    → All IsSized entries
    → receive_entries entries nothing_received ≡ ok given
    → IsBounded given
receive_entries-IsBounded entries given sized h =
    received-IsBounded entries nothing_received given sized (refl, tt, tt, omega arith, omega arith)
      h
