-- ===== src/Bridge/Websocket/Turns.antt =====
-- crates/cxs-bridge/src/lib.rs: the sessions that the turns of `relay_websocket` lead to.
use codex_shuttle.Prelude.{◌≡◌, Bool, true, ◌&&◌, []}
use codex_shuttle.Json.{Codec}
use codex_shuttle.Core.Profile.{Profile}
use codex_shuttle.Bridge.Registration.{phase_is_ready}
use codex_shuttle.Bridge.Websocket.Session.{Session}
use codex_shuttle.Bridge.Websocket.Server.{Next, skip, epilogue}
use codex_shuttle.Bridge.Websocket.Kept.{Kept}
use codex_shuttle.Bridge.Websocket.Queue.{IsSound}

-- The client's messages go straight to their servers.
abbrev pub is_open : Session → Bool
is_open s = phase_is_ready s.registration.phase && s.initialize_response_sent

-- A sound session in which nothing waits once it is open.
pub record IsSettled (codec : Codec) (s : Session) : Type 0 where
  pub sound : IsSound codec s
  pub empty : is_open s ≡ true → s.pending_client_messages ≡ []

abbrev IsNextSound : Codec → Next → Type 0
IsNextSound codec (skip s) = IsSettled codec s
IsNextSound codec (epilogue s) = IsSound codec s
