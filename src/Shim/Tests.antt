-- ===== src/Shim/Tests.antt =====
-- The theorems on crates/cxs-shim at concrete inputs.
use codex_shuttle.Prelude.{
  ℕ, String, ◌≡◌, refl, inl, true, false, List, [], ◌∷◌, ◌++◌, ◌||◌, ◌==◌, Option, none, some,
  arith, nat_eq, ok, if◌then◌else◌,
}
use codex_shuttle.Prelude.Text.{bytes}
use codex_shuttle.Prelude.Strings.{trim}
use codex_shuttle.Core.Profile.{Profile, ShimHandshake, ready, jsonl}
use codex_shuttle.Mux.Channel.{bytes_eq, bytes_eq_iff}
use codex_shuttle.Bridge.Handshake.{read_handshake, validate_handshake}
use codex_shuttle.Shim.{ShimConfig, run}
use codex_shuttle.Shim.Dispatch.{IsAppServerCall, run-Serves}
use codex_shuttle.Shim.Session.{shim_handshake, open_bridge_session}
use codex_shuttle.Shim.Session.Accepted.{open_bridge_session-accepted}
use codex_shuttle.Shim.Agents.{World, live, prepare_agent_socket}
use codex_shuttle.Shim.Agents.Signals.{ToAgents, start, prepare_agent_socket-ToAgents}
use codex_shuttle.Shim.Control.{accepted, completed, idle, serve_events}
use codex_shuttle.Shim.Control.Idle.{accepts, completions, serve_events-accepts}

abbrev config : ShimConfig
config = record {
  profile = "gpu";
  codex_version = "1";
  agent_socket = "/tmp/cxs.sock";
  control_socket = none;
  token_file = "/h/token";
  exec_server = "/h/codex";
  exec_server_args = [];
  exec_server_port = 40000;
  codex_home = "/h/.codex";
  original_codex = none;
}

run-Serves_example :
    (before : List String) × (behind : List String) × IsAppServerCall
      ("-c" ∷ "app-server" ∷ "--flag" ∷ [])
      before
      behind
    × (("-c" ∷ "--flag" ∷ []) ≡ before ++ behind)
unfolding run
run-Serves_example =
    run-Serves config ("-c" ∷ "app-server" ∷ "--flag" ∷ []) ("-c" ∷ "--flag" ∷ []) (inl refl)

-- An agent that ends at the third look.
abbrev world : World
world = record {
  exists = λ looks pid. looks == 0 || looks == 2;
  command_line = λ looks pid. some (bytes "__cxs-agent");
}

prepare_agent_socket-ToAgents_example :
    ToAgents world (prepare_agent_socket world true (7 ∷ []) (λ looks. live (ok 7)) start).1.sent
    × (true ≡ false
        → (prepare_agent_socket world true (7 ∷ []) (λ looks. live (ok 7)) start).1.sent ≡ [])
prepare_agent_socket-ToAgents_example =
    prepare_agent_socket-ToAgents world true (7 ∷ []) (λ looks. live (ok 7))

abbrev gone : World
gone = record { exists = λ looks pid. false; command_line = λ looks pid. none }

serve_events-accepts_example :
    accepts (accepted ∷ accepted ∷ completed ∷ completed ∷ idle ∷ [])
    ≡ completions (accepted ∷ accepted ∷ completed ∷ completed ∷ idle ∷ [])
unfolding serve_events
serve_events-accepts_example =
    serve_events-accepts (accepted ∷ accepted ∷ completed ∷ completed ∷ idle ∷ []) (omega arith)
      refl

abbrev profile : Profile
profile = record {
  schema_version = 1;
  name = "gpu";
  source_host = "box";
  app_alias = "cxs-gpu";
  status = ready;
  codex_version = "1";
  local_socket = "/s/bridge.sock";
  remote_socket = "/tmp/cxs-0a.sock";
  environment_id = "cxs-gpu";
  local_exec_port = 4000;
  remote_exec_port = 40000;
  token_file = "/s/bridge.token";
  codex_home = "/h/.codex";
  installed_target = none;
  remote_home = none;
  remote_release = none;
  package_sha256 = none;
  shim_sha256 = none;
  executor_source = none;
  executor_path = none;
}

abbrev to_vec : ShimHandshake → List ℕ
to_vec handshake = 1 ∷ 2 ∷ []

abbrev decode : List ℕ → Option ShimHandshake
decode body =
    if bytes_eq body (1 ∷ 2 ∷ []) then some (shim_handshake config "t\n" [] jsonl) else none

open_bridge_session-accepted_example :
    (read_handshake decode (1 ∷ 2 ∷ 10 ∷ 9 ∷ [])
      ≡ ok (shim_handshake config "t\n" [] jsonl, 9 ∷ []))
    × (validate_handshake bytes_eq (shim_handshake config "t\n" [] jsonl) profile (trim "t\n")
        ≡ ok tt)
unfolding bytes_eq open_bridge_session
open_bridge_session-accepted_example =
    open_bridge_session-accepted to_vec decode bytes_eq config "t\n" [] jsonl (1 ∷ 2 ∷ 10 ∷ [])
      (9 ∷ []) profile (λ a b h. bytes_eq_iff a b) refl ((λ h. cc), ((λ h. cc), tt)) refl refl
