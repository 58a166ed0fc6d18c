-- ===== src/Shim/Session.antt =====
-- crates/cxs-shim/src/main.rs: `open_bridge_session`. `serde_json::to_vec` is a parameter.
pub mod Accepted
use codex_shuttle.Prelude.{
  ℕ, ◌-◌, ◌*◌, String, List, [], ◌∷◌, ◌++◌, Option, none, some, ltb, length, Result, ok, err, ◌>>=◌,
  ◌>>◌, or_fail, guard, Bool, true, false, not,
}
use codex_shuttle.Prelude.Strings.{trim}
use codex_shuttle.Core.Profile.{ShimHandshake, ShimTransport, shim_magic, shim_protocol_version}
use codex_shuttle.Shim.{
  ShimConfig, ShimError, could_not_connect, token_unreadable, arguments_too_large,
}

unfoldable pub shim_handshake : ShimConfig → String → List String → ShimTransport → ShimHandshake
shim_handshake config token arguments transport = record {
  magic = shim_magic;
  protocol_version = shim_protocol_version;
  profile = config.profile;
  token = trim token;
  app_server_args = arguments;
  transport = transport;
}

-- What is written to the agent's socket, where it can be connected and the token can be read.
unfoldable pub open_bridge_session :
    (ShimHandshake → List ℕ)
    → Bool
    → Option String
    → ShimConfig
    → List String
    → ShimTransport
    → Result ShimError (List ℕ)
unfolding shim_handshake
open_bridge_session to_vec connected token_text config arguments transport = do
  _ ← guard connected could_not_connect
  token ← or_fail token_text token_unreadable
  (let encoded = to_vec (shim_handshake config token arguments transport) in
      guard (not (ltb (8 * 1024 - 1) (length encoded))) arguments_too_large
      >> ok (encoded ++ 10 ∷ []))
