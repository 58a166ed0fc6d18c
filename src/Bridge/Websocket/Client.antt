-- ===== src/Bridge/Websocket/Client.antt =====
-- crates/cxs-bridge/src/lib.rs: the arm of `relay_websocket` for the client's frames.
use codex_shuttle.Prelude.{
  ℕ, ◌+◌, String, Bool, true, false, not, ◌&&◌, ◌||◌, [], ◌∷◌, ◌++◌, ltb, if◌then◌else◌, ok, err,
  ◌>>=◌, or_fail,
}
use codex_shuttle.Json.{Value, Codec, string, get_str, set_index}
use codex_shuttle.Core.Profile.{Profile}
use codex_shuttle.Bridge.Errors.{Fallible, invalid_client_json, not_an_object, too_much_pending}
use codex_shuttle.Bridge.Registration.{has_initialize_request, is_ready}
use codex_shuttle.Bridge.Rewrite.{Method, thread_list, method_of, rewrite_client_message}
use codex_shuttle.Bridge.Threads.{remember_request_id}
use codex_shuttle.Bridge.Jsonl.{max_pending_client_bytes, is_initialize}
use codex_shuttle.Bridge.Host.{RequestRoute, request_route, host_initialize_id}
use codex_shuttle.Bridge.Websocket.Session.{
  Frame, text, opaque, relayed, Session, text_len, send_server, send_host, forward_client_message,
}

module _ (codec : Codec) (profile : Profile) (now : ℕ) where
  unfoldable pub remember : Method → Value → Session → Session
  remember thread_list request s = record s {
    pending_thread_list_requests = remember_request_id codec request s.pending_thread_list_requests;
  }
  remember _ request s = s

  -- The initialize request goes to both servers, to the host under the bridge's id.
  unfoldable pub initialize_both : String → Value → Session → Fallible Session
  unfolding send_server send_host
  initialize_both rewritten request s = do
    host_initialize ←
        or_fail (set_index "id" (string (host_initialize_id profile)) request) not_an_object
    ok (send_server (relayed (text rewritten)) (send_host (codec.encode host_initialize) s))

  unfoldable pub must_wait : Session → Bool
  must_wait s =
      has_initialize_request s.registration
      && (not (is_ready s.registration) || not s.initialize_response_sent)

  unfoldable pub enqueue : String → RequestRoute → Session → Fallible Session
  enqueue rewritten route s =
      let total = s.pending_client_bytes + text_len rewritten in
      if ltb max_pending_client_bytes total
      then err too_much_pending
      else ok (record s {
        pending_client_messages = s.pending_client_messages ++ (rewritten, route) ∷ [];
        pending_client_bytes = total;
      })

  unfoldable pub dispatch : Bool → String → Value → RequestRoute → Session → Fallible Session
  unfolding initialize_both must_wait enqueue
  dispatch true rewritten request route s = initialize_both rewritten request s
  dispatch false rewritten request route s =
      if must_wait s
      then enqueue rewritten route s
      else forward_client_message codec profile now rewritten route s

  unfoldable pub client_text : String → Session → Fallible Session
  unfolding remember dispatch
  client_text line s = do
    rewritten ← rewrite_client_message codec profile s.registration.initialize_id line
    request ← or_fail (codec.decode rewritten.0) invalid_client_json
    let name = get_str "method" request
    let s' = record s { registration = record s.registration { initialize_id = rewritten.1 } }
    dispatch (is_initialize (method_of name)) rewritten.0 request (request_route name)
        (remember (method_of name) request s')

  unfoldable pub client_frame : Frame → Session → Fallible Session
  unfolding client_text send_server
  client_frame (text line) s = client_text line s
  client_frame (opaque n) s = ok (send_server (relayed (opaque n)) s)
