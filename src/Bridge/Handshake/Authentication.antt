-- ===== src/Bridge/Handshake/Authentication.antt =====
-- `validate_handshake`, `validate_agent_handshake` and the bytes that `read_handshake` takes.
use mathlib.Core.List.{append-nil, append_assoc}
use text.Mathlib.TextEquality.{eq_iff}
use codex_shuttle.Prelude.{
  ℕ, ◌+◌, ◌≤◌, ◌<◌, String, ◌≡◌, ap, ◌≢◌, ◌↔◌, Bool, true, false, List, [], ◌∷◌, ◌++◌, arith,
  nat_eq, string_eq, length, length-append, ok, err, All,
}
use codex_shuttle.Prelude.Text.{bytes}
use codex_shuttle.Core.Profile.{
  Profile, ShimHandshake, AgentHandshake, shim_magic, shim_protocol_version, agent_magic,
  agent_protocol_version,
}
use codex_shuttle.Bridge.Errors.{handshake_too_long}
use codex_shuttle.Bridge.Lines.{newline}
use codex_shuttle.Bridge.Handshake.{
  max_handshake_bytes, read_handshake_bytes, tokens_differ, validate_handshake,
  validate_agent_handshake,
}

-- `subtle` compares slices of one length by their bytes.
abbrev pub Compares : (List ℕ → List ℕ → Bool) → Type 0
Compares ct_eq = (a b : List ℕ) → length a ≡ length b → (ct_eq a b ≡ true) ↔ (a ≡ b)

module _ (ct_eq : List ℕ → List ℕ → Bool) (compares : Compares ct_eq) where
  tokens_differ_iff :
      (token expected : String)
      → (tokens_differ ct_eq token expected ≡ false) ↔ (bytes token ≡ bytes expected)
  unfolding tokens_differ
  tokens_differ_iff token expected = (
    λ h. (compares (bytes token) (bytes expected) (ground arith)).0 (ground arith),
    λ e.
        let same = ap length e in
        let equal = (compares (bytes token) (bytes expected) same).1 e in
        ground (arith, same, equal),
  )

  -- For any comparison of bytes that agrees with equality on lists of one length, a shim is let in
  -- exactly if its magic, protocol version and profile name are the expected ones and its token
  -- has the bytes of the expected token.
  pub validate_handshake_iff :
      (h : ShimHandshake) (profile : Profile) (expected : String)
      → (validate_handshake ct_eq h profile expected ≡ ok tt) ↔ (
          (h.magic ≡ shim_magic)
          × (h.protocol_version ≡ shim_protocol_version)
          × (h.profile ≡ profile.name)
          × (bytes h.token ≡ bytes expected))
  unfolding validate_handshake
  validate_handshake_iff h profile expected = ground (
    arith,
    eq_iff h.magic shim_magic,
    eq_iff h.profile profile.name,
    tokens_differ_iff h.token expected,
  )

  -- For any comparison of bytes that agrees with equality on lists of one length, the agent's
  -- handshake is accepted exactly if its magic, protocol version and profile are the expected ones
  -- and its token has the bytes of the expected token.
  pub validate_agent_handshake_iff :
      (h : AgentHandshake) (profile : Profile) (expected : String)
      → (validate_agent_handshake ct_eq h profile expected ≡ ok tt) ↔ (
          (h.magic ≡ agent_magic)
          × (h.protocol_version ≡ agent_protocol_version)
          × (h.profile ≡ profile.name)
          × (bytes h.token ≡ bytes expected))
  unfolding validate_agent_handshake
  validate_agent_handshake_iff h profile expected = ground (
    arith,
    eq_iff h.magic agent_magic,
    eq_iff h.profile profile.name,
    tokens_differ_iff h.token expected,
  )

read_body :
    (body rest got : List ℕ)
    → All (λ b. b ≢ newline) body
    → length got + length body < max_handshake_bytes
    → read_handshake_bytes (body ++ newline ∷ rest) got ≡ ok (got ++ body, rest)
unfolding read_handshake_bytes
read_body [] rest got n h = ground (arith, append-nil got)
read_body (b ∷ body) rest got (n, ns) h = ground (
  arith,
  length-append got (b ∷ []),
  read_body body rest (got ++ b ∷ []) ns (ground (arith, length-append got (b ∷ []))),
  append_assoc got (b ∷ []) body,
)

read_long :
    (bs got : List ℕ)
    → All (λ b. b ≢ newline) bs
    → max_handshake_bytes ≤ length got + length bs
    → read_handshake_bytes bs got ≡ err handshake_too_long
unfolding read_handshake_bytes
read_long [] got n h = ground arith
read_long (b ∷ bs) got (n, ns) h =
    ground (arith, read_long bs (got ++ b ∷ []) ns (ground (arith, length-append got (b ∷ []))))

-- A handshake of less than 8 KiB with no newline in it is read to the newline that follows it, and
-- every byte behind that is left on the stream.
pub read_handshake_bytes_lem :
    (body rest : List ℕ)
    → All (λ b. b ≢ newline) body
    → length body < max_handshake_bytes
    → read_handshake_bytes (body ++ newline ∷ rest) [] ≡ ok (body, rest)
read_handshake_bytes_lem body rest n h = read_body body rest [] n (omega arith)
