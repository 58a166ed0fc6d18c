-- ===== src/Shim/Session/Accepted.antt =====
-- `open_bridge_session` and the bridge that reads its handshake.
use codex_shuttle.Prelude.{
  ℕ, ◌-◌, ◌*◌, ◌<◌, String, ◌≡◌, refl, ◌≢◌, Bool, true, not, List, [], ◌∷◌, ◌++◌, Option, some,
  arith, ltb, length, All, ok, or_fail, guard, >>=-eq-ok, or_fail-eq-ok, guard-eq-ok,
}
use mathlib.Core.List.{append_assoc}
use codex_shuttle.Prelude.Strings.{trim}
use codex_shuttle.Core.Profile.{Profile, ShimHandshake, ShimTransport}
use codex_shuttle.Bridge.Handshake.{read_handshake, validate_handshake}
use codex_shuttle.Bridge.Handshake.Authentication.{
  Compares, validate_handshake_iff, read_handshake_bytes_lem,
}
use codex_shuttle.Shim.{ShimConfig, could_not_connect, token_unreadable, arguments_too_large}
use codex_shuttle.Shim.Session.{shim_handshake, open_bridge_session}

open_bridge_session-ok :
    (to_vec : ShimHandshake → List ℕ) (connected : Bool) (token_text : Option String)
    (config : ShimConfig) (arguments : List String) (transport : ShimTransport) (sent : List ℕ)
    → open_bridge_session to_vec connected token_text config arguments transport ≡ ok sent
    → (token : String) × (token_text ≡ some token)
      × (length (to_vec (shim_handshake config token arguments transport)) < 8 * 1024)
      × (sent ≡ to_vec (shim_handshake config token arguments transport) ++ 10 ∷ [])
unfolding open_bridge_session
open_bridge_session-ok to_vec connected token_text config arguments transport sent h =
    let (u, linked, h₁) = >>=-eq-ok (guard connected could_not_connect) _ h in
    let (token, read, h₂) = >>=-eq-ok (or_fail token_text token_unreadable) _ h₁ in
    let (v, short, same) =
      >>=-eq-ok
        (guard
          (not (
            ltb (8 * 1024 - 1) (length (to_vec (shim_handshake config token arguments transport)))))
          arguments_too_large)
        _ h₂ in
    (
      token,
      or_fail-eq-ok token_text token_unreadable read,
      ground (arith, guard-eq-ok _ arguments_too_large short),
      ground (arith, same),
    )

text_inj : {a b : String} → Path (Option String) (some a) (some b) → a ≡ b
text_inj h = ground arith

read_sent :
    (decode : List ℕ → Option ShimHandshake) (handshake : ShimHandshake) (body sent behind : List ℕ)
    → All (λ b. b ≢ 10) body
    → length body < 8 * 1024
    → sent ≡ body ++ 10 ∷ []
    → decode body ≡ some handshake
    → read_handshake decode (sent ++ behind) ≡ ok (handshake, behind)
unfolding read_handshake
read_sent decode handshake body sent behind flat fits framed decoded =
    rw
      (
        framed,
        append_assoc body (10 ∷ []) behind,
        read_handshake_bytes_lem body behind flat fits,
        decoded,
      )
      refl

-- Whatever arguments the shim is given: if it sends a handshake at all, the bridge reads exactly that
-- handshake, with every byte behind it still unread, and accepts it where both have the same profile
-- and token; JSON is assumed to write the handshake on one line and to read it back.
pub open_bridge_session-accepted :
    (to_vec : ShimHandshake → List ℕ) (decode : List ℕ → Option ShimHandshake)
    (ct_eq : List ℕ → List ℕ → Bool) (config : ShimConfig) (token : String)
    (arguments : List String) (transport : ShimTransport) (sent behind : List ℕ) (profile : Profile)
    → Compares ct_eq
    → (decode (to_vec (shim_handshake config token arguments transport))
        ≡ some (shim_handshake config token arguments transport))
    → All (λ b. b ≢ 10) (to_vec (shim_handshake config token arguments transport))
    → config.profile ≡ profile.name
    → open_bridge_session to_vec true (some token) config arguments transport ≡ ok sent
    → (read_handshake decode (sent ++ behind)
        ≡ ok (shim_handshake config token arguments transport, behind))
      × (validate_handshake ct_eq
            (shim_handshake config token arguments transport)
            profile
            (trim token)
          ≡ ok tt)
unfolding read_handshake shim_handshake
open_bridge_session-accepted to_vec decode ct_eq config token arguments transport sent behind
      profile compares decoded flat named h =
    let (found, given, short, same) =
      open_bridge_session-ok to_vec true (some token) config arguments transport sent h in
    let e = text_inj given in
    let body = to_vec (shim_handshake config token arguments transport) in
    let fits : length body < 8 * 1024 = rw (← e) at short in
    let framed : sent ≡ body ++ 10 ∷ [] = rw (← e) at same in
    (
      read_sent decode (shim_handshake config token arguments transport) body sent behind flat fits
          framed decoded,
      (validate_handshake_iff ct_eq compares (shim_handshake config token arguments transport)
            profile (trim token)).1
          (refl, refl, named, refl),
    )
