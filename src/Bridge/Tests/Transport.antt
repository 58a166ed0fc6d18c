-- ===== src/Bridge/Tests/Transport.antt =====
-- Backoff, bounded lines, handshakes and arguments at concrete inputs.
use codex_shuttle.Prelude.{◌≡◌, refl, ◌↔◌, String, List, [], ◌∷◌, ◌++◌, some, arith, ok, nat_eq}
use codex_shuttle.Prelude.Text.{bytes}
use codex_shuttle.Core.Profile.{
  ShimHandshake, AgentHandshake, jsonl, shim_magic, shim_protocol_version,
}
use codex_shuttle.Bridge.Backoff.{max_delay, agent_reconnect_delay, agent_reconnect_delay_max}
use codex_shuttle.Bridge.Lines.{read_bounded_line, write_line, cut, ends_in_cr}
use codex_shuttle.Bridge.Lines.Chunks.{
  first_line, flat, read_bounded_line-first_line, read_bounded_line-write_line,
}
use codex_shuttle.Bridge.Handshake.{validate_handshake, read_handshake_bytes}
use codex_shuttle.Bridge.Handshake.Authentication.{validate_handshake_iff, read_handshake_bytes_lem}
use codex_shuttle.Bridge.Arguments.{
  app_server_arguments, classify, forward, Filtered, app_server_arguments-Filtered,
}
use codex_shuttle.Mux.Channel.{bytes_eq, bytes_eq_iff}
use codex_shuttle.Bridge.Tests.{profile}

agent_reconnect_delay_max_example : agent_reconnect_delay 7 ≡ max_delay
agent_reconnect_delay_max_example = agent_reconnect_delay_max 7 (omega arith)

read_bounded_line-first_line_example :
    flat (read_bounded_line 8 ((1 ∷ 2 ∷ []) ∷ (3 ∷ 10 ∷ 4 ∷ []) ∷ []))
    ≡ first_line 8 (1 ∷ 2 ∷ 3 ∷ 10 ∷ 4 ∷ [])
read_bounded_line-first_line_example =
    read_bounded_line-first_line 8 ((1 ∷ 2 ∷ []) ∷ (3 ∷ 10 ∷ 4 ∷ []) ∷ []) (tt, (tt, tt))

read_bounded_line-write_line_example :
    flat (read_bounded_line 8 ((1 ∷ 2 ∷ []) ∷ (10 ∷ 4 ∷ []) ∷ [])) ≡ ok (some (1 ∷ 2 ∷ []), 4 ∷ [])
unfolding cut ends_in_cr write_line
read_bounded_line-write_line_example =
    read_bounded_line-write_line 8 ((1 ∷ 2 ∷ []) ∷ (10 ∷ 4 ∷ []) ∷ []) (1 ∷ 2 ∷ []) (4 ∷ [])
      (tt, (tt, tt)) refl refl refl (omega arith)

abbrev handshake : ShimHandshake
handshake = record {
  magic = "CXS1";
  protocol_version = 1;
  profile = "gpu";
  token = "t0";
  app_server_args = [];
  transport = jsonl;
}

validate_handshake_iff_example : (validate_handshake bytes_eq handshake profile "t0" ≡ ok tt) ↔ (
    (handshake.magic ≡ shim_magic)
    × (handshake.protocol_version ≡ shim_protocol_version)
    × (handshake.profile ≡ profile.name)
    × (bytes handshake.token ≡ bytes "t0"))
validate_handshake_iff_example =
    validate_handshake_iff bytes_eq (λ a b same. bytes_eq_iff a b) handshake profile "t0"

abbrev agent_handshake : AgentHandshake
agent_handshake = record {
  magic = "CXS-AGENT1";
  protocol_version = 1;
  profile = "gpu";
  token = "t1";
}

read_handshake_bytes_lem_example :
    read_handshake_bytes ((7 ∷ 8 ∷ []) ++ 10 ∷ 9 ∷ []) [] ≡ ok (7 ∷ 8 ∷ [], 9 ∷ [])
read_handshake_bytes_lem_example =
    read_handshake_bytes_lem (7 ∷ 8 ∷ []) (9 ∷ []) (omega arith, (omega arith, tt)) (omega arith)

app_server_arguments-Filtered_example :
    (rest : List String) × (("app-server" ∷ "-c" ∷ "a=b" ∷ []) ≡ "app-server" ∷ rest)
    × Filtered ("--listen" ∷ "stdio://" ∷ "-c" ∷ "a=b" ∷ []) rest
unfolding app_server_arguments forward classify
app_server_arguments-Filtered_example =
    app_server_arguments-Filtered ("--listen" ∷ "stdio://" ∷ "-c" ∷ "a=b" ∷ [])
      ("app-server" ∷ "-c" ∷ "a=b" ∷ []) refl
