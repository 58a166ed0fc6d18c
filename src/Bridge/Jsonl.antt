-- ===== src/Bridge/Jsonl.antt =====
-- crates/cxs-bridge/src/lib.rs: `relay_jsonl`, the relay between a client and the local App Server
-- over JSON lines, as a step on the events of its `select!`. Writes succeed: a failed one ends the
-- relay in the state before it.
pub mod Reads
pub mod Waiting
pub mod Queue
pub mod Order
pub mod Loop
use codex_shuttle.Prelude.{
  ℕ, ◌+◌, ◌-◌, ◌*◌, ◌≡◌, String, Bool, true, false, not, ◌&&◌, List, [], ◌∷◌, ◌++◌, Option, none,
  some, ltb, if◌then◌else◌, length, ok, err, ◌>>=◌, or_fail,
}
use codex_shuttle.Prelude.Text.{bytes}
use codex_shuttle.Json.{Value, Codec, get_str}
use codex_shuttle.Core.Profile.{Profile}
use codex_shuttle.Core.Scope.{SessionScope}
use codex_shuttle.Bridge.Errors.{
  BridgeError, Fallible, invalid_client_json, invalid_server_json, too_much_pending,
}
use codex_shuttle.Bridge.Registration.{
  EnvironmentRegistration, new, has_initialize_request, is_ready, is_initialize_response,
  begin_registration, is_add_response, begin_status_poll, is_status_response,
  handle_status_response,
}
use codex_shuttle.Bridge.Rewrite.{
  Method, initialize, thread_start, thread_list, method_of, rewrite_client_message,
}
use codex_shuttle.Bridge.Threads.{
  SessionScopeHandle, remember_request_id, take_request_id, record_owned_thread,
  filter_thread_list_response,
}

abbrev pub max_pending_client_bytes : ℕ
max_pending_client_bytes = 32 * 1024 * 1024

-- A line to the App Server: the client's, or the bridge's own request.
pub data Sent : Type 0 where
  relayed own : String → Sent

pub record Relay : Type 0 where
  pub registration : EnvironmentRegistration
  pub pending_client_lines : List String
  pub pending_client_bytes : ℕ
  pub pending_thread_start_requests : List String
  pub pending_thread_list_requests : List String
  pub session_scope : SessionScopeHandle
  -- what has been written and saved so far
  pub to_server : List Sent
  pub to_client : List String
  pub saved : List (Option SessionScope)

-- What a completed read of a side returns: a failure to read, the end, or a line. Bytes that a read has
-- consumed when `select!` drops it never come to an event; the module Reads is about them.
pub data Event : Type 0 where
  client server : Fallible (Option String) → Event

unfoldable pub start : Profile → SessionScopeHandle → Relay
start profile scope = record {
  registration = new profile;
  pending_client_lines = [];
  pending_client_bytes = 0;
  pending_thread_start_requests = [];
  pending_thread_list_requests = [];
  session_scope = scope;
  to_server = [];
  to_client = [];
  saved = [];
}

unfoldable pub text_len : String → ℕ
text_len s = length (bytes s)

unfoldable pub is_initialize : Method → Bool
is_initialize initialize = true
is_initialize _ = false

unfoldable pub send : Sent → Relay → Relay
send line s = record s { to_server = s.to_server ++ line ∷ [] }

-- `while let Some(pending) = pending_client_lines.pop_front()`
unfoldable pub drain : List String → ℕ → List Sent → Relay → Relay
drain [] pending_bytes sent s = record s {
  pending_client_lines = [];
  pending_client_bytes = pending_bytes;
  to_server = sent;
}
drain (line ∷ lines) pending_bytes sent s =
    drain lines (pending_bytes - text_len line) (sent ++ relayed line ∷ []) s

unfoldable pub flush : Relay → Relay
unfolding drain
flush s = drain s.pending_client_lines s.pending_client_bytes s.to_server s

module _ (codec : Codec) (profile : Profile) where
  unfoldable pub remember : Method → Value → Relay → Relay
  remember thread_start request s = record s {
    pending_thread_start_requests =
        remember_request_id codec request s.pending_thread_start_requests;
  }
  remember thread_list request s = record s {
    pending_thread_list_requests = remember_request_id codec request s.pending_thread_list_requests;
  }
  remember _ request s = s

  unfoldable pub must_wait : Method → Relay → Bool
  unfolding is_initialize
  must_wait method s =
      has_initialize_request s.registration
      && not (is_ready s.registration)
      && not (is_initialize method)

  -- The client's line waits, or goes straight to the App Server.
  unfoldable pub enqueue : Method → String → Relay → Fallible Relay
  unfolding must_wait send
  enqueue method rewritten s =
      if must_wait method s
      then (let total = s.pending_client_bytes + text_len rewritten in
          if ltb max_pending_client_bytes total
          then err too_much_pending
          else ok (record s {
            pending_client_lines = s.pending_client_lines ++ rewritten ∷ [];
            pending_client_bytes = total;
          }))
      else ok (send (relayed rewritten) s)

  unfoldable pub client_line : String → Relay → Fallible Relay
  unfolding remember enqueue
  client_line line s = do
    rewritten ← rewrite_client_message codec profile s.registration.initialize_id line
    request ← or_fail (codec.decode rewritten.0) invalid_client_json
    let method = method_of (get_str "method" request)
    let s' = record s { registration = record s.registration { initialize_id = rewritten.1 } }
    enqueue method rewritten.0 (remember method request s')

  -- The bridge's own request, with the registration that made it.
  unfoldable pub request_with : EnvironmentRegistration × Value → Relay → Relay
  unfolding send
  request_with (r, request) s = send (own (codec.encode request)) (record s { registration = r })

  unfoldable pub after_status : EnvironmentRegistration × Option Value → Relay → Relay
  unfolding request_with flush
  after_status (r, some request) s = request_with (r, request) s
  after_status (r, none) s = flush (record s { registration = r })

  -- The ownership of a thread/start response, and the filter on a thread/list response.
  unfoldable pub note_started : Value → Relay → Relay
  note_started message s =
      let (mine, requests) = take_request_id codec message s.pending_thread_start_requests in
      let (scope', save) = record_owned_thread s.session_scope message in
      if mine
      then record s {
        pending_thread_start_requests = requests;
        session_scope = scope';
        saved = if save then s.saved ++ scope'.scope ∷ [] else s.saved;
      }
      else record s { pending_thread_start_requests = requests }

  unfoldable pub filter_listed : Value → Relay → Value × Relay
  filter_listed message s =
      let (mine, requests) = take_request_id codec message s.pending_thread_list_requests in
      let s' = record s { pending_thread_list_requests = requests } in
      (if mine then filter_thread_list_response s.session_scope message else message, s')

  unfoldable pub answer_client : Value → Relay → Relay
  answer_client message s = record s { to_client = s.to_client ++ codec.encode message ∷ [] }

  unfoldable pub to_client_message : Value → Relay → Fallible Relay
  unfolding note_started filter_listed answer_client request_with
  to_client_message message s =
      let (message', s') = filter_listed message (note_started message s) in
      let answered = answer_client message' s' in
      if is_initialize_response s.registration message
      then (begin_registration s.registration message' profile >>= λ begun.
          ok (request_with begun answered))
      else ok answered

  unfoldable pub server_message : Value → Relay → Fallible Relay
  unfolding after_status request_with to_client_message
  server_message message s =
      if is_add_response s.registration message
      then (begin_status_poll s.registration message profile >>= λ polled.
          ok (request_with polled s))
      else if is_status_response s.registration message
      then (handle_status_response s.registration message profile >>= λ now.
          ok (after_status now s))
      else to_client_message message s

  unfoldable pub server_line : String → Relay → Fallible Relay
  unfolding server_message
  server_line line s = do
    message ← or_fail (codec.decode line) invalid_server_json
    server_message message s

  -- One turn of the loop; `none` is that the relay returns.
  unfoldable pub step : Event → Relay → Fallible (Option Relay)
  unfolding client_line server_line
  step (client (err e)) s = err e
  step (client (ok none)) s = ok none
  step (client (ok (some line))) s = (client_line line s >>= λ s'. ok (some s'))
  step (server (err e)) s = err e
  step (server (ok none)) s = ok none
  step (server (ok (some line))) s = (server_line line s >>= λ s'. ok (some s'))

  -- The states that the relay can come to, with the events that led there.
  pub data Reach (s : Relay) : List Event → Relay → Type 0 where
    here : Reach s [] s
    next :
        {es : List Event} {t u : Relay} (e : Event)
        → Reach s es t
        → step e t ≡ ok (some u)
        → Reach s (e ∷ es) u
