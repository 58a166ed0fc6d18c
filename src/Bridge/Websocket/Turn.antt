-- ===== src/Bridge/Websocket/Turn.antt =====
-- crates/cxs-bridge/src/lib.rs: one turn of the loop of `relay_websocket`, with the end of its body.
use codex_shuttle.Prelude.{
  Bool, not, any, String, ℕ, ◌≡◌, true, ◌&&◌, Option, none, some, if◌then◌else◌, ok, err, ◌>>=◌,
}
use codex_shuttle.Json.{Value, Codec}
use codex_shuttle.Core.Profile.{Profile}
use codex_shuttle.Bridge.Errors.{Fallible}
use codex_shuttle.Bridge.Registration.{is_ready}
use codex_shuttle.Bridge.Host.{merge_initialize_response}
use codex_shuttle.Bridge.Metadata.{Decoders, PendingThreadMetadata, Pending}
use codex_shuttle.Bridge.Websocket.Session.{Frame, text, Session, send_client, flush}
use codex_shuttle.Bridge.Websocket.Client.{client_frame}
use codex_shuttle.Bridge.Websocket.Server.{Next, skip, epilogue, server_frame}
use codex_shuttle.Bridge.Websocket.Host.{host_line, timer}

-- What the `select!` yields: a frame or the end on either WebSocket, a line of the host (or a failure
-- to read one, or the end), or the 50 ms tick, which does nothing while no entry waits to be sent. A failed frame is the error that it ends with.
pub data Event : Type 0 where
  client server : Fallible (Option Frame) → Event
  host : Fallible (Option String) → Event
  tick : Event

-- The condition of the tick's arm.
unfoldable pub any_unsent : Pending → Bool
any_unsent pending =
    any (λ (entry : String × PendingThreadMetadata). not entry.1.local_sent) pending

module _ (codec : Codec) (profile : Profile) (d : Decoders) (now : ℕ) where
  -- The client's initialize response, once both servers have answered.
  unfoldable pub answer_with : Option Value → Option Value → Session → Fallible Session
  unfolding send_client
  answer_with (some from_local) (some from_host) s =
      if s.initialize_response_sent
      then ok s
      else (merge_initialize_response from_local from_host profile.remote_home >>= λ merged. ok (
          send_client (text (codec.encode merged))
            (record s { local_initialize_response = none; initialize_response_sent = true })))
  answer_with _ _ s = ok s

  unfoldable pub answer_initialize : Session → Fallible Session
  unfolding answer_with
  answer_initialize s = answer_with s.local_initialize_response s.host_initialize_response s

  unfoldable pub flush_if_ready : Session → Fallible Session
  flush_if_ready s =
      if is_ready s.registration && s.initialize_response_sent
      then flush codec profile now s
      else ok s

  unfoldable pub end_of_body : Session → Fallible Session
  unfolding answer_initialize flush_if_ready
  end_of_body s = (answer_initialize s >>= λ s'. flush_if_ready s')

  unfoldable pub finish : Next → Fallible (Option Session)
  unfolding end_of_body
  finish (skip s) = ok (some s)
  finish (epilogue s) = (end_of_body s >>= λ s'. ok (some s'))

  -- `none` is that the relay returns.
  unfoldable pub step : Event → Session → Fallible (Option Session)
  unfolding finish any_unsent
  step (client (err e)) s = err e
  step (client (ok none)) s = ok none
  step (client (ok (some frame))) s =
      (client_frame codec profile now frame s >>= λ s'. finish (epilogue s'))
  step (server (err e)) s = err e
  step (server (ok none)) s = ok none
  step (server (ok (some frame))) s = (server_frame codec profile now frame s >>= finish)
  step (host line) s = (host_line codec profile d line s >>= λ s'. finish (epilogue s'))
  step tick s =
      let timed = (timer codec profile now s >>= λ s'. finish (epilogue s')) in
      if any_unsent s.pending_thread_metadata then timed else ok (some s)

-- The sessions that the relay can come to, each turn at a time of its own.
pub data Reach (codec : Codec) (profile : Profile) (d : Decoders) (s : Session)
    : Session → Type 0 where
  here : Reach codec profile d s s
  next :
      {t u : Session} (now : ℕ) (e : Event)
      → Reach codec profile d s t
      → step codec profile d now e t ≡ ok (some u)
      → Reach codec profile d s u
