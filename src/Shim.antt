-- ===== src/Shim.antt =====
-- crates/cxs-shim/src/main.rs: what the shim does with its arguments. Sockets, processes and signals
-- are parameters or events of the child modules.
pub mod Dispatch
pub mod Session
pub mod Agents
pub mod Control
mod Tests
use text.Mathlib.Text.{starts_with}
use codex_shuttle.Prelude.{
  ℕ, String, Bool, true, false, ◌&&◌, ◌||◌, List, [], ◌∷◌, ◌++◌, Option, none, some, ◌==◌,
  string_eq, if◌then◌else◌, any,
}

pub record ShimConfig : Type 0 where
  pub profile : String
  pub codex_version : String
  pub agent_socket : String
  pub control_socket : Option String
  pub token_file : String
  pub exec_server : String
  pub exec_server_args : List String
  pub exec_server_port : ℕ
  pub codex_home : String
  pub original_codex : Option String

pub data ShimError : Type 0 where
  could_not_connect token_unreadable arguments_too_large : ShimError
  not_a_socket already_listening owner_unknown : ShimError
  could_not_inspect not_an_agent could_not_stop : ℕ → ShimError
  unsupported_channel : ShimError

-- What `run` goes on with.
pub data Action : Type 0 where
  -- `run_agent`, with its `replace`
  agent : Bool → Action
  print : String → Action
  -- `delegate_or_reject` with a Codex of its own and without one
  delegate : String → List String → Action
  reject : Action
  proxy : Action
  serve_control relay : List String → Action

unfoldable pub is_listen_pair : String → String → Bool
is_listen_pair flag value =
    flag == "--listen" && (value == "unix://" || starts_with value "unix://")

-- `arguments.windows(2).any(...)`
unfoldable pub has_listen_pair : List String → Bool
unfolding is_listen_pair
has_listen_pair [] = false
has_listen_pair (flag ∷ []) = false
has_listen_pair (flag ∷ value ∷ arguments) =
    is_listen_pair flag value || has_listen_pair (value ∷ arguments)

unfoldable pub requests_unix_listener : List String → Bool
unfolding has_listen_pair
requests_unix_listener arguments =
    has_listen_pair arguments || any (λ argument. starts_with argument "--listen=unix://") arguments

-- The arguments before and behind the first `app-server`.
unfoldable pub split_app_server : List String → Option (List String × List String)
split_app_server [] = none
split_app_server (argument ∷ arguments) =
    let later = split_app_server arguments in
    if argument == "app-server"
    then some ([], arguments)
    else elim later [ none ↦ none | some (before, behind) ↦ some (argument ∷ before, behind) ]

unfoldable pub delegate_or_reject : ShimConfig → List String → Action
delegate_or_reject config arguments = elim config.original_codex [
  | none ↦ reject
  | some original ↦ delegate original arguments
]

unfoldable pub app_server_action : List String → List String → Action
unfolding requests_unix_listener
app_server_action before [] = relay (before ++ [])
app_server_action before (next ∷ behind) =
    if next == "proxy"
    then proxy
    else if requests_unix_listener (next ∷ behind)
    then serve_control (before ++ next ∷ behind)
    else relay (before ++ next ∷ behind)

unfoldable pub other_action : ShimConfig → List String → Action
unfolding split_app_server delegate_or_reject app_server_action
other_action config arguments = elim (split_app_server arguments) [
  | none ↦ delegate_or_reject config arguments
  | some (before, behind) ↦ app_server_action before behind
]

-- `run`, once the configuration is loaded.
unfoldable pub run : ShimConfig → List String → Action
unfolding other_action
run config [] = other_action config []
run config (first ∷ []) =
    if first == "__cxs-agent"
    then agent false
    else if first == "--version" || first == "-V"
    then print config.codex_version
    else other_action config (first ∷ [])
run config (first ∷ second ∷ []) =
    if first == "__cxs-agent" && second == "--replace"
    then agent true
    else other_action config (first ∷ second ∷ [])
run config (first ∷ second ∷ third ∷ rest) = other_action config (first ∷ second ∷ third ∷ rest)
