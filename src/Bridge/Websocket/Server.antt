-- ===== src/Bridge/Websocket/Server.antt =====
-- crates/cxs-bridge/src/lib.rs: the arm of `relay_websocket` for the local App Server's frames.
use codex_shuttle.Prelude.{
  ℕ, String, ◌&&◌, [], ◌∷◌, ◌++◌, Option, none, some, if◌then◌else◌, ok, ◌>>=◌, or_fail,
}
use codex_shuttle.Prelude.Assoc.{lookup, remove}
use codex_shuttle.Json.{Value, Codec}
use codex_shuttle.Core.Profile.{Profile}
use codex_shuttle.Bridge.Errors.{Fallible, invalid_server_json, metadata_disappeared}
use codex_shuttle.Bridge.Registration.{
  EnvironmentRegistration, is_add_response, begin_status_poll, is_status_response,
  handle_status_response, is_initialize_response, begin_registration, has_id,
}
use codex_shuttle.Bridge.Threads.{take_request_id, record_owned_thread, filter_thread_list_response}
use codex_shuttle.Bridge.Metadata.{Pending, merge_thread_metadata}
use codex_shuttle.Bridge.Websocket.Session.{
  Frame, text, opaque, own, Session, send_server, send_client, flush,
}

-- `continue` goes on with the next event at once; otherwise the end of the loop's body follows.
pub data Next : Type 0 where
  skip epilogue : Session → Next

-- The entry that waits for the local response with this message's id.
unfoldable pub find_sent : Value → Pending → Option String
find_sent message [] = none
find_sent message ((k, e) ∷ rest) =
    if e.local_sent && has_id message e.client_id then some k else find_sent message rest

unfoldable pub merge_if : Value → Option Value → Fallible Value
merge_if message none = ok message
merge_if message (some host_response) = merge_thread_metadata message host_response

module _ (codec : Codec) (profile : Profile) (now : ℕ) where
  unfoldable pub request_with : EnvironmentRegistration × Value → Session → Session
  unfolding send_server
  request_with (r, request) s =
      send_server (own (codec.encode request)) (record s { registration = r })

  unfoldable pub after_status : EnvironmentRegistration × Option Value → Session → Fallible Session
  unfolding request_with
  after_status (r, some request) s = ok (request_with (r, request) s)
  after_status (r, none) s =
      let s' = record s { registration = r } in
      if s.initialize_response_sent then flush codec profile now s' else ok s'

  -- The response to a thread/start request: its ownership is noted, and the host's view merged.
  unfoldable pub thread_started : String → Value → Session → Fallible Session
  unfolding merge_if send_client
  thread_started metadata_id message s = do
    entry ← or_fail (lookup metadata_id s.pending_thread_metadata) metadata_disappeared
    let owned = record_owned_thread s.session_scope message
    merged ← merge_if message entry.host_response
    ok (
        send_client (text (codec.encode merged)) (record s {
          pending_thread_metadata = remove metadata_id s.pending_thread_metadata;
          session_scope = owned.0;
          saved = if owned.1 then s.saved ++ owned.0.scope ∷ [] else s.saved;
        }))

  unfoldable pub initialized : Value → Session → Fallible Session
  unfolding request_with
  initialized message s =
      (begin_registration s.registration message profile >>= λ begun.
      ok (request_with begun (record s { local_initialize_response = some message })))

  -- A list is filtered; every other frame goes to the client as it came.
  unfoldable pub pass_on : Frame → Value → Session → Session
  unfolding send_client
  pass_on frame message s =
      let (mine, requests) = take_request_id codec message s.pending_thread_list_requests in
      let s' = record s { pending_thread_list_requests = requests } in
      if mine
      then send_client (text (codec.encode (filter_thread_list_response s.session_scope message)))
          s'
      else send_client frame s'

  unfoldable pub other_response : Option String → Frame → Value → Session → Fallible Session
  unfolding thread_started pass_on
  other_response (some metadata_id) frame message s = thread_started metadata_id message s
  other_response none frame message s = ok (pass_on frame message s)

  unfoldable pub server_response : Frame → Value → Session → Fallible Session
  unfolding initialized other_response find_sent
  server_response frame message s =
      if is_initialize_response s.registration message
      then initialized message s
      else other_response (find_sent message s.pending_thread_metadata) frame message s

  unfoldable pub server_message : Frame → Value → Session → Fallible Next
  unfolding request_with after_status server_response
  server_message frame message s =
      if is_add_response s.registration message
      then (begin_status_poll s.registration message profile >>= λ polled.
          ok (skip (request_with polled s)))
      else if is_status_response s.registration message
      then (handle_status_response s.registration message profile >>= λ now'.
          after_status now' s >>= λ s'. ok (skip s'))
      else (server_response frame message s >>= λ s'. ok (epilogue s'))

  unfoldable pub server_frame : Frame → Session → Fallible Next
  unfolding server_message send_client
  server_frame (text line) s = do
    message ← or_fail (codec.decode line) invalid_server_json
    server_message (text line) message s
  server_frame (opaque n) s = ok (epilogue (send_client (opaque n) s))
