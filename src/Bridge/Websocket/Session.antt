-- ===== src/Bridge/Websocket/Session.antt =====
-- crates/cxs-bridge/src/lib.rs: the variables of `relay_websocket`, and `forward_client_message` with
-- the loop that empties the queue. Writes succeed: a failed one ends the relay.
use codex_shuttle.Prelude.{
  ℕ, ◌-◌, String, Bool, false, List, [], ◌∷◌, ◌++◌, Option, none, length, ok, ◌>>=◌,
}
use codex_shuttle.Prelude.Text.{bytes}
use codex_shuttle.Json.{Value, Codec}
use codex_shuttle.Core.Profile.{Profile}
use codex_shuttle.Core.Scope.{SessionScope}
use codex_shuttle.Bridge.Errors.{Fallible}
use codex_shuttle.Bridge.Registration.{EnvironmentRegistration, new}
use codex_shuttle.Bridge.Threads.{SessionScopeHandle}
use codex_shuttle.Bridge.Host.{RequestRoute, local, host, thread_start}
use codex_shuttle.Bridge.Metadata.{Pending, forward_thread_start}

-- A WebSocket message: a text, or a frame that is passed on as it is.
pub data Frame : Type 0 where
  text : String → Frame
  opaque : ℕ → Frame

-- What is sent to the local App Server: a frame of the client, a request of the bridge, or a
-- thread/start request once its metadata is there.
pub data Sent : Type 0 where
  relayed : Frame → Sent
  own started : String → Sent

pub record Session : Type 0 where
  pub registration : EnvironmentRegistration
  pub local_initialize_response : Option Value
  pub host_initialize_response : Option Value
  pub initialize_response_sent : Bool
  pub pending_client_messages : List (String × RequestRoute)
  pub pending_client_bytes : ℕ
  pub metadata_sequence : ℕ
  pub pending_thread_metadata : Pending
  pub pending_thread_list_requests : List String
  pub session_scope : SessionScopeHandle
  -- what has been written and saved so far
  pub to_server : List Sent
  pub to_client : List Frame
  pub to_host : List String
  pub saved : List (Option SessionScope)

unfoldable pub start : Profile → SessionScopeHandle → Session
start profile scope = record {
  registration = new profile;
  local_initialize_response = none;
  host_initialize_response = none;
  initialize_response_sent = false;
  pending_client_messages = [];
  pending_client_bytes = 0;
  metadata_sequence = 0;
  pending_thread_metadata = [];
  pending_thread_list_requests = [];
  session_scope = scope;
  to_server = [];
  to_client = [];
  to_host = [];
  saved = [];
}

unfoldable pub text_len : String → ℕ
text_len s = length (bytes s)

unfoldable pub send_server : Sent → Session → Session
send_server x s = record s { to_server = s.to_server ++ x ∷ [] }

unfoldable pub send_client : Frame → Session → Session
send_client x s = record s { to_client = s.to_client ++ x ∷ [] }

unfoldable pub send_host : String → Session → Session
send_host x s = record s { to_host = s.to_host ++ x ∷ [] }

module _ (codec : Codec) (profile : Profile) (now : ℕ) where
  unfoldable pub forward_client_message : String → RequestRoute → Session → Fallible Session
  unfolding send_server send_host
  forward_client_message message local s = ok (send_server (relayed (text message)) s)
  forward_client_message message host s = ok (send_host message s)
  forward_client_message message thread_start s = do
    (shadow, sequence, pending) ←
        forward_thread_start codec profile now message s.metadata_sequence s.pending_thread_metadata
    ok (
        send_host shadow
          (record s { metadata_sequence = sequence; pending_thread_metadata = pending }))

  -- `while let Some((pending, route)) = pending_client_messages.pop_front()`
  unfoldable pub drain : List (String × RequestRoute) → Session → Fallible Session
  unfolding forward_client_message
  drain [] s = ok (record s { pending_client_messages = [] })
  drain ((message, route) ∷ rest) s = do
    s' ← forward_client_message message route (record s {
      pending_client_messages = rest;
      pending_client_bytes = s.pending_client_bytes - text_len message;
    })
    drain rest s'

  unfoldable pub flush : Session → Fallible Session
  unfolding drain
  flush s = drain s.pending_client_messages s
