-- ===== src/Shim/Dispatch.antt =====
-- `run`: the arguments of an App Server that is served or relayed.
use codex_shuttle.Prelude.{
  String, ◌≡◌, refl, subst, ap, ◌∙◌, inl, inr, ◌⊎◌, Bool, false, ◌&&◌, ◌||◌, List, [], ◌∷◌, ◌++◌,
  Option, some, arith, ◌==◌, string_eq, any, Bool-cases, Option-cases,
}
use text.Mathlib.TextEquality.{eq_iff}
use codex_shuttle.Shim.{
  ShimConfig, Action, agent, print, delegate, reject, proxy, serve_control, relay, split_app_server,
  app_server_action, requests_unix_listener, delegate_or_reject, other_action, run,
}

-- The arguments are those of a Codex call: no `app-server` stands before the first one.
abbrev pub IsAppServerCall : List String → List String → List String → Type 0
IsAppServerCall arguments before behind =
    (arguments ≡ before ++ "app-server" ∷ behind)
    × (any (λ argument. argument == "app-server") before ≡ false)

pair_inj :
    {a b c d : List String}
    → Path (Option (List String × List String)) (some (a, c)) (some (b, d))
    → (a ≡ b) × (c ≡ d)
pair_inj h = (ground arith, ground arith)

split_app_server-some :
    (arguments before behind : List String)
    → split_app_server arguments ≡ some (before, behind)
    → IsAppServerCall arguments before behind
unfolding split_app_server
split_app_server-some [] before behind h = cc
split_app_server-some (argument ∷ arguments) before behind h =
    elim (Bool-cases (argument == "app-server")) [
      | inl here ↦
          let same : Path (Option (List String × List String)) (some ([], arguments))
              (some (before, behind)) =
            rw (split_app_server, here) at h in
          let (none_before, rest) = pair_inj same in
          subst (λ p. IsAppServerCall (argument ∷ arguments) p behind) none_before
            (rw ((eq_iff argument "app-server").0 here, rest) refl, refl)
      | inr other ↦ elim (Option-cases (split_app_server arguments)) [
        | inl absent ↦ cc (rw (split_app_server, other, absent) at h)
        | inr ((earlier, later), found) ↦
            let same : Path (Option (List String × List String)) (some (argument ∷ earlier, later))
                (some (before, behind)) =
              rw (split_app_server, other, found) at h in
            let (first, rest) = pair_inj same in
            let (parts, clean) = split_app_server-some arguments earlier later found in
            subst (λ p. IsAppServerCall (argument ∷ arguments) p behind) first
              (
                ap (λ xs. argument ∷ xs) (parts ∙ ap (λ b. earlier ++ "app-server" ∷ b) rest),
                rw (other, clean) refl,
              )
      ]
    ]

-- The action is for the App Server with these arguments.
abbrev pub Serves : Action → List String → Type 0
Serves action given = (action ≡ relay given) ⊎ (action ≡ serve_control given)

proxy_serves : {given : List String} {T : Type 0} → Serves proxy given → T
proxy_serves (inl h) = cc
proxy_serves (inr h) = cc

reject_serves : {given : List String} {T : Type 0} → Serves reject given → T
reject_serves (inl h) = cc
reject_serves (inr h) = cc

delegate_serves :
    {original : String} {arguments given : List String} {T : Type 0}
    → Serves (delegate original arguments) given
    → T
delegate_serves (inl h) = cc
delegate_serves (inr h) = cc

agent-Serves :
    {replace : Bool} {given : List String} {T : Type 0} → Serves (agent replace) given → T
agent-Serves (inl h) = cc
agent-Serves (inr h) = cc

print-Serves : {text : String} {given : List String} {T : Type 0} → Serves (print text) given → T
print-Serves (inl h) = cc
print-Serves (inr h) = cc

control-Serves : {a given : List String} → Serves (serve_control a) given → given ≡ a
control-Serves (inl h) = cc
control-Serves (inr h) = ground arith

relay-Serves : {a given : List String} → Serves (relay a) given → given ≡ a
relay-Serves (inl h) = ground arith
relay-Serves (inr h) = cc

app_server_action-Serves :
    (before behind given : List String)
    → Serves (app_server_action before behind) given
    → given ≡ before ++ behind
unfolding app_server_action
app_server_action-Serves before [] given (inl h) = ground arith
app_server_action-Serves before [] given (inr h) = cc
app_server_action-Serves before (next ∷ behind) given h = elim (Bool-cases (next == "proxy")) [
  | inl proxied ↦ proxy_serves (rw (app_server_action, proxied) at h)
  | inr other ↦ elim (Bool-cases (requests_unix_listener (next ∷ behind))) [
    | inl listens ↦ control-Serves (rw (app_server_action, other, listens) at h)
    | inr plain ↦ relay-Serves (rw (app_server_action, other, plain) at h)
  ]
]

other_action-Serves :
    (config : ShimConfig) (arguments given : List String)
    → Serves (other_action config arguments) given
    → (before : List String) × (behind : List String) × IsAppServerCall arguments before behind
      × (given ≡ before ++ behind)
unfolding other_action delegate_or_reject
other_action-Serves config arguments given h = elim (Option-cases (split_app_server arguments)) [
  | inl absent ↦ elim (Option-cases config.original_codex) [
    | inl nothing ↦ reject_serves (rw (other_action, absent, delegate_or_reject, nothing) at h)
    | inr (original, there) ↦
        delegate_serves (rw (other_action, absent, delegate_or_reject, there) at h)
  ]
  | inr ((before, behind), found) ↦ (
    before,
    behind,
    split_app_server-some arguments before behind found,
    app_server_action-Serves before behind given (rw (other_action, found) at h),
  )
]

-- Whenever the shim serves or relays an App Server, it was called with an `app-server` argument, and
-- the App Server gets every other argument in its order; only the first `app-server` is taken out.
pub run-Serves :
    (config : ShimConfig) (arguments given : List String)
    → Serves (run config arguments) given
    → (before : List String) × (behind : List String) × IsAppServerCall arguments before behind
      × (given ≡ before ++ behind)
unfolding run
run-Serves config [] given h = other_action-Serves config [] given h
run-Serves config (first ∷ []) given h = elim (Bool-cases (first == "__cxs-agent")) [
  | inl mode ↦ agent-Serves (rw (run, mode) at h)
  | inr other ↦ elim (Bool-cases (first == "--version" || first == "-V")) [
    | inl version ↦ print-Serves (rw (run, other, version) at h)
    | inr plain ↦ other_action-Serves config (first ∷ []) given (rw (run, other, plain) at h)
  ]
]
run-Serves config (first ∷ second ∷ []) given h =
    elim (Bool-cases (first == "__cxs-agent" && second == "--replace")) [
      | inl mode ↦ agent-Serves (rw (run, mode) at h)
      | inr other ↦ other_action-Serves config (first ∷ second ∷ []) given (rw (run, other) at h)
    ]
run-Serves config (first ∷ second ∷ third ∷ rest) given h =
    other_action-Serves config (first ∷ second ∷ third ∷ rest) given h
