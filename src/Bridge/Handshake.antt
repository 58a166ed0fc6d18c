-- ===== src/Bridge/Handshake.antt =====
-- crates/cxs-bridge/src/lib.rs: reading and checking the two handshakes. Parsing them as JSON and the
-- constant-time comparison of bytes are not in the repository: `decode` and `ct_eq` are parameters.
pub mod Authentication
use codex_shuttle.Prelude.{
  ℕ, suc, ◌+◌, ◌*◌, ◌≤◌, ◌<◌, String, ◌≡◌, refl, ◌≢◌, ◌↔◌, Bool, true, false, not, ◌&&◌, ◌||◌, List,
  [], ◌∷◌, ◌++◌, Option, none, some, arith, ◌==◌, nat_eq, string_eq, leb, if◌then◌else◌, length,
  length-append, ok, err, ◌>>=◌, or_fail, All, Bool-cases,
}
use codex_shuttle.Prelude.Text.{bytes}
use codex_shuttle.Core.Profile.{
  Profile, ShimHandshake, AgentHandshake, shim_magic, shim_protocol_version, agent_magic,
  agent_protocol_version,
}
use codex_shuttle.Bridge.Errors.{
  Fallible, disconnected_in_handshake, invalid_handshake, handshake_too_long, version_mismatch,
  wrong_profile, authentication_failed,
}
use codex_shuttle.Bridge.Lines.{newline, read_bounded_line}

abbrev pub max_handshake_bytes : ℕ
max_handshake_bytes = 8 * 1024

-- The loop of `read_handshake`, a byte at a time, so that nothing behind the newline is consumed.
unfoldable pub read_handshake_bytes : List ℕ → List ℕ → Fallible (List ℕ × List ℕ)
read_handshake_bytes [] body =
    if leb max_handshake_bytes (length body)
    then err handshake_too_long
    else err disconnected_in_handshake
read_handshake_bytes (b ∷ bs) body =
    let more = read_handshake_bytes bs (body ++ b ∷ []) in
    if leb max_handshake_bytes (length body)
    then err handshake_too_long
    else if b == newline
    then ok (body, bs)
    else more

module _ (decode : List ℕ → Option ShimHandshake) where
  unfoldable pub read_handshake : List ℕ → Fallible (ShimHandshake × List ℕ)
  unfolding read_handshake_bytes
  read_handshake stream = do
    (body, rest) ← read_handshake_bytes stream []
    handshake ← or_fail (decode body) invalid_handshake
    ok (handshake, rest)

module _ (decode : List ℕ → Option AgentHandshake) where
  unfoldable pub read_agent_handshake : List (List ℕ) → Fallible (AgentHandshake × List (List ℕ))
  unfolding read_bounded_line
  read_agent_handshake reader = do
    (line, rest) ← read_bounded_line max_handshake_bytes reader
    body ← or_fail line disconnected_in_handshake
    handshake ← or_fail (decode body) invalid_handshake
    ok (handshake, rest)

module _ (ct_eq : List ℕ → List ℕ → Bool) where
  unfoldable pub tokens_differ : String → String → Bool
  tokens_differ token expected =
      not (length (bytes token) == length (bytes expected))
      || not (ct_eq (bytes token) (bytes expected))

  unfoldable pub validate_handshake : ShimHandshake → Profile → String → Fallible (Unit {0})
  unfolding tokens_differ
  validate_handshake h profile expected =
      if not (h.magic == shim_magic) || not (h.protocol_version == shim_protocol_version)
      then err version_mismatch
      else if not (h.profile == profile.name)
      then err wrong_profile
      else if tokens_differ h.token expected
      then err authentication_failed
      else ok tt

  unfoldable pub validate_agent_handshake : AgentHandshake → Profile → String → Fallible (Unit {0})
  unfolding tokens_differ
  validate_agent_handshake h profile expected =
      if not (h.magic == agent_magic) || not (h.protocol_version == agent_protocol_version)
      then err version_mismatch
      else if not (h.profile == profile.name)
      then err wrong_profile
      else if tokens_differ h.token expected
      then err authentication_failed
      else ok tt
