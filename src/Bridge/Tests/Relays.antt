-- ===== src/Bridge/Tests/Relays.antt =====
-- The two relays at concrete sessions: a client that asks to initialize and then sends a message.
use codex_shuttle.Prelude.{
  String, if◌then◌else◌, ℕ, ◌≡◌, refl, false, List, [], ◌∷◌, none, some, ok,
}
use codex_shuttle.Prelude.Text.{bytes}
use codex_shuttle.Bridge.Rewrite.{rewrite_client_message}
use codex_shuttle.Json.{get_str, get_field, as_object, insert_field, set_index, number, pos_int}
use codex_shuttle.Bridge.Threads.{SessionScopeHandle}
use codex_shuttle.Bridge.Registration.{
  EnvironmentRegistration, new, waiting_for_initialize, has_initialize_request, is_ready,
}
use codex_shuttle.Bridge.Host.{host, request_route}
use codex_shuttle.Bridge.Jsonl as Jsonl
use codex_shuttle.Bridge.Jsonl.Waiting.{IsQueued}
use codex_shuttle.Bridge.Jsonl.Queue.{Reach-IsQueued}
use codex_shuttle.Bridge.Jsonl.Reads.{Taken, part, line_end, client, server}
use codex_shuttle.Mux.Channel.{bytes_eq}
use codex_shuttle.Bridge.Websocket.Session.{text, relayed, Session, start, text_len}
use codex_shuttle.Bridge.Websocket.Client.{client_frame}
use codex_shuttle.Core.Routing.{is_host_request, contains}
use codex_shuttle.Bridge.Websocket.Turn as Turn
use codex_shuttle.Bridge.Metadata.{Decoders}
use codex_shuttle.Bridge.Tests.{profile, codec}

abbrev unscoped : SessionScopeHandle
unscoped = record { poisoned = false; scope = none }

abbrev asked : EnvironmentRegistration
asked = record {
  initialize_id = some (number (pos_int 1));
  phase = waiting_for_initialize;
  add_request_id = "cxs/gpu/environment-add";
  status_request_id = "cxs/gpu/environment-status";
}

abbrev lines : List Jsonl.Event
lines = Jsonl.client (ok (some "model/list")) ∷ Jsonl.client (ok (some "initialize")) ∷ []

abbrev initializing : Jsonl.Relay
initializing = record {
  registration = asked;
  pending_client_lines = [];
  pending_client_bytes = 0;
  pending_thread_start_requests = [];
  pending_thread_list_requests = [];
  session_scope = unscoped;
  to_server = Jsonl.relayed "initialize" ∷ [];
  to_client = [];
  saved = [];
}

abbrev queued : Jsonl.Relay
queued = record initializing { pending_client_lines = "model/list" ∷ []; pending_client_bytes = 10 }

initialize_line :
    Jsonl.step codec profile (Jsonl.client (ok (some "initialize"))) (Jsonl.start profile unscoped)
    ≡ ok (some initializing)
unfolding Jsonl.step rewrite_client_message get_str get_field as_object insert_field
    has_initialize_request is_ready Jsonl.start new
initialize_line = refl

list_line :
    Jsonl.step codec profile (Jsonl.client (ok (some "model/list"))) initializing ≡ ok (some queued)
unfolding Jsonl.step rewrite_client_message get_str get_field has_initialize_request is_ready
    Jsonl.text_len bytes
list_line = refl

abbrev lines-Reach : Jsonl.Reach codec profile (Jsonl.start profile unscoped) lines queued
lines-Reach =
    Jsonl.next (Jsonl.client (ok (some "model/list")))
      (Jsonl.next (Jsonl.client (ok (some "initialize"))) Jsonl.here initialize_line) list_line

Reach-IsQueued_example : IsQueued queued
Reach-IsQueued_example = Reach-IsQueued codec profile unscoped lines queued lines-Reach

-- Part of a server's line is dropped; the client sends an initialize request in two parts and one more
-- line.
abbrev taken : List Taken
taken =
    part server (9 ∷ [])
    ∷ part client (1 ∷ [])
    ∷ line_end client (2 ∷ 10 ∷ [])
    ∷ line_end client (3 ∷ 10 ∷ [])
    ∷ []

abbrev line_text : List ℕ → String
line_text line = if bytes_eq line (3 ∷ []) then "model/list" else "initialize"

-- Nothing is decoded in these sessions.
abbrev no_decoders : Decoders
no_decoders = record { base64 = λ s. none; from_utf8 = λ bs. none }

abbrev both_asked : Session
both_asked = record {
  registration = asked;
  local_initialize_response = none;
  host_initialize_response = none;
  initialize_response_sent = false;
  pending_client_messages = [];
  pending_client_bytes = 0;
  metadata_sequence = 0;
  pending_thread_metadata = [];
  pending_thread_list_requests = [];
  session_scope = unscoped;
  to_server = relayed (text "initialize") ∷ [];
  to_client = [];
  to_host = "initialize" ∷ [];
  saved = [];
}

abbrev held_back : Session
held_back = record both_asked {
  pending_client_messages = ("fs/watch", host) ∷ [];
  pending_client_bytes = 8;
}

initialize_turn :
    Turn.step codec profile no_decoders 0
      (Turn.client (ok (some (text "initialize"))))
      (start profile unscoped)
    ≡ ok (some both_asked)
unfolding Turn.step client_frame rewrite_client_message get_str get_field as_object insert_field
    Jsonl.is_initialize set_index start is_ready new
initialize_turn = refl

watch_turn :
    Turn.step codec profile no_decoders 5 (Turn.client (ok (some (text "fs/watch")))) both_asked
    ≡ ok (some held_back)
unfolding Turn.step client_frame rewrite_client_message get_str get_field Jsonl.is_initialize
    has_initialize_request is_ready text_len bytes request_route is_host_request contains
watch_turn = refl

abbrev held_back-Reach : Turn.Reach codec profile no_decoders (start profile unscoped) held_back
held_back-Reach =
    Turn.next 5 (Turn.client (ok (some (text "fs/watch"))))
      (Turn.next 0 (Turn.client (ok (some (text "initialize")))) Turn.here initialize_turn)
      watch_turn
