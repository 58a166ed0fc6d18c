-- ===== src/Bridge/Websocket/Host.antt =====
-- crates/cxs-bridge/src/lib.rs: the arm of `relay_websocket` for the remote Host App Server's lines,
-- and the one for metadata that does not come in time.
use Prim.Native.String.{◌++◌}
use codex_shuttle.Prelude.{
  ℕ, suc, ◌-◌, String, Bool, true, false, not, ◌&&◌, List, [], ◌∷◌, Option, none, some, leb,
  if◌then◌else◌, ok, err, ◌>>=◌, or_fail,
}
use codex_shuttle.Prelude.Text.{decimal}
use codex_shuttle.Prelude.Assoc.{lookup, insert}
use codex_shuttle.Json.{Value, Codec, string, end, field, get_str}
use codex_shuttle.Core.Profile.{Profile}
use codex_shuttle.Bridge.Errors.{
  Fallible, invalid_host_json, host_disconnected, host_initialize_failed,
}
use codex_shuttle.Bridge.Registration.{is_some, has_error, has_str_id, request}
use codex_shuttle.Bridge.Host.{host_initialize_id, host_message_allowed}
use codex_shuttle.Bridge.Metadata.{
  Decoders, PendingThreadMetadata, Pending, instruction_source_paths, pending_instruction_read,
  record_instruction_read, send_local_thread_start,
}
use codex_shuttle.Bridge.Websocket.Session.{
  text, started, Session, send_server, send_client, send_host,
}

abbrev pub project_metadata_timeout : ℕ
project_metadata_timeout = 3000

unfoldable pub read_file_request : String → String → Value
read_file_request id path = request id "fs/readFile" (field "path" (string path) end)

unfoldable pub sent_of : Option String → Session → Session
unfolding send_server
sent_of none s = s
sent_of (some line) s = send_server (started line) s

-- The entry that waits for the read with this id.
unfoldable pub find_reader : String → Pending → Option String
find_reader read_id [] = none
find_reader read_id ((k, e) ∷ rest) =
    if is_some (lookup read_id e.pending_instruction_reads)
    then some k
    else find_reader read_id rest

unfoldable pub is_drained : Option PendingThreadMetadata → Bool
is_drained none = false
is_drained (some e) = elim e.pending_instruction_reads [ [] ↦ true | _ ↦ false ]

unfoldable pub is_sent : Option PendingThreadMetadata → Bool
is_sent none = false
is_sent (some e) = e.local_sent

module _ (codec : Codec) (profile : Profile) where
  unfoldable pub start_locally : String → Session → Fallible Session
  unfolding sent_of
  start_locally metadata_id s = do
    (line, pending) ← send_local_thread_start codec metadata_id s.pending_thread_metadata
    ok (sent_of line (record s { pending_thread_metadata = pending }))

  -- One read for each source, numbered from `index`.
  unfoldable pub request_reads : String → ℕ → List String → Session → Fallible Session
  unfolding send_host read_file_request
  request_reads metadata_id index [] s = ok s
  request_reads metadata_id index (path ∷ paths) s = do
    let read_id = metadata_id ++ "/instruction/" ++ decimal index
    pending ← pending_instruction_read metadata_id read_id path s.pending_thread_metadata
    request_reads metadata_id (suc index) paths (
        send_host (codec.encode (read_file_request read_id path))
          (record s { pending_thread_metadata = pending }))

  unfoldable pub read_or_start : String → List String → Session → Fallible Session
  unfolding start_locally request_reads
  read_or_start metadata_id [] s = start_locally metadata_id s
  read_or_start metadata_id (p ∷ ps) s = request_reads metadata_id 0 (p ∷ ps) s

  -- The host's answer to the shadow request of an entry.
  unfoldable pub shadow_answer : String → PendingThreadMetadata → Value → Session → Fallible Session
  unfolding start_locally read_or_start
  shadow_answer metadata_id entry message s =
      if has_error message
      then start_locally metadata_id s
      else if entry.local_sent
      then ok (record s {
        pending_thread_metadata =
            insert metadata_id (record entry { host_response = some message })
              s.pending_thread_metadata;
      })
      else (let paths = instruction_source_paths message in
          let entry' = record entry { host_response = some message; instruction_paths = paths } in
          read_or_start metadata_id paths (record s {
            pending_thread_metadata = insert metadata_id entry' s.pending_thread_metadata;
          }))

  unfoldable pub start_if : Bool → String → Session → Fallible Session
  unfolding start_locally
  start_if true metadata_id s = start_locally metadata_id s
  start_if false metadata_id s = ok s

  unfoldable pub read_answer : Decoders → String → String → Value → Session → Fallible Session
  unfolding start_if is_drained
  read_answer d metadata_id read_id message s = do
    pending ← record_instruction_read d metadata_id read_id message s.pending_thread_metadata
    start_if (is_drained (lookup metadata_id pending)) metadata_id
        (record s { pending_thread_metadata = pending })

  -- A message whose id is none of the bridge's pending ones.
  unfoldable pub host_passed : String → Value → Session → Session
  unfolding send_client
  host_passed line message s =
      if host_message_allowed message profile then send_client (text line) s else s

  unfoldable pub read_or_pass :
      Decoders → Option String → Option String → String → Value → Session → Fallible Session
  unfolding read_answer host_passed
  read_or_pass d (some read_id) (some metadata_id) line message s =
      read_answer d metadata_id read_id message s
  read_or_pass d _ _ line message s = ok (host_passed line message s)

  unfoldable pub host_reader : Option String → Pending → Option String
  unfolding find_reader
  host_reader none pending = none
  host_reader (some id) pending = find_reader id pending

  unfoldable pub host_entry : Option String → Pending → Option (String × PendingThreadMetadata)
  host_entry none pending = none
  host_entry (some id) pending = elim (lookup id pending) [ none ↦ none | some e ↦ some (id, e) ]

  unfoldable pub host_answer :
      Decoders
      → Option (String × PendingThreadMetadata)
      → String
      → Value
      → Session
      → Fallible Session
  unfolding shadow_answer read_or_pass host_reader
  host_answer d (some (metadata_id, entry)) line message s =
      shadow_answer metadata_id entry message s
  host_answer d none line message s =
      let id = get_str "id" message in
      read_or_pass d id (host_reader id s.pending_thread_metadata) line message s

  unfoldable pub host_message : Decoders → String → Value → Session → Fallible Session
  unfolding host_answer host_entry
  host_message d line message s =
      if has_str_id message (host_initialize_id profile)
      then (if has_error message
          then err host_initialize_failed
          else ok (record s { host_initialize_response = some message }))
      else host_answer d (host_entry (get_str "id" message) s.pending_thread_metadata) line message
          s

  -- `none` is that the host has closed its side.
  unfoldable pub host_line : Decoders → Fallible (Option String) → Session → Fallible Session
  unfolding host_message
  host_line d line s = do
    some_line ← line
    text_line ← or_fail some_line host_disconnected
    message ← or_fail (codec.decode text_line) invalid_host_json
    host_message d text_line message s

  -- The entries that have waited for 3 s.
  unfoldable pub expired : ℕ → Pending → List String
  expired now [] = []
  expired now ((k, e) ∷ rest) =
      let later = expired now rest in
      if not e.local_sent && leb project_metadata_timeout (now - e.started_at)
      then k ∷ later
      else later

  unfoldable pub start_all : List String → Session → Fallible Session
  unfolding start_locally
  start_all [] s = ok s
  start_all (k ∷ ks) s = (start_locally k s >>= λ s'. start_all ks s')

  unfoldable pub timer : ℕ → Session → Fallible Session
  unfolding expired start_all
  timer now s = start_all (expired now s.pending_thread_metadata) s
