-- ===== src/Shim/Agents/Signals.antt =====
-- The signals of `prepare_agent_socket`, and the end of `stop_agent_process`.
use codex_shuttle.Prelude.{
  ℕ, suc, zero, ◌+◌, ◌≡◌, refl, subst, sym, inl, inr, Bool, true, false, List, [], ◌∷◌, All,
  All-append, Result, ok, err, Bool-cases, Result-cases,
}
use codex_shuttle.Shim.{ShimError}
use codex_shuttle.Shim.Agents.{
  World, Sent, Trace, Signal, sigterm, sigkill, Outcome, SocketPath, free, not_socket, stale, live,
  look, send, check_command_line, validate_agent_process, wait_while_exists, finish, kill_hard,
  kill_if_there, finish_after, stop_within, stop_agent_process, stop_if_agent, stop_existing_agents,
  replace_agent, clear_socket, prepare_agent_socket,
}

-- Before the first look.
abbrev pub start : Trace
start = record { looks = 0; sent = [] }

module _ (world : World) where
  -- The look just before shows the command line of an agent.
  abbrev pub IsAgentAt : ℕ → ℕ → Type 0
  IsAgentAt looks pid =
      (last : ℕ) × (looks ≡ last + 1)
      × (check_command_line pid (world.command_line last pid) ≡ ok tt)

  abbrev pub ToAgents : List Sent → Type 0
  ToAgents sent = All (λ s. IsAgentAt s.after s.pid) sent

  send-ToAgents :
      (signal : Signal) (pid : ℕ) (trace : Trace)
      → IsAgentAt trace.looks pid
      → ToAgents trace.sent
      → ToAgents (send signal pid trace).sent
  unfolding send
  send-ToAgents signal pid trace seen h =
      All-append (λ s. IsAgentAt s.after s.pid) trace.sent _ h (seen, tt)

  wait-sent :
      (fuel pid : ℕ) (trace : Trace) → (wait_while_exists world fuel pid trace).sent ≡ trace.sent
  unfolding wait_while_exists look
  wait-sent zero pid trace = refl
  wait-sent (suc fuel) pid trace = elim (Bool-cases (world.exists trace.looks pid)) [
    | inl there ↦ rw there (wait-sent fuel pid (look trace))
    | inr gone ↦ rw gone refl
  ]

  kill_hard-ToAgents :
      (pid : ℕ) (trace : Trace) → ToAgents trace.sent → ToAgents (kill_hard world pid trace).1.sent
  unfolding kill_hard validate_agent_process look
  kill_hard-ToAgents pid trace h =
      elim (Result-cases (check_command_line pid (world.command_line trace.looks pid))) [
        | inl (u, agent) ↦
            rw (kill_hard, validate_agent_process, agent)
              (send-ToAgents sigkill pid (look trace) (trace.looks, refl, agent) h)
        | inr (e, other) ↦ rw (kill_hard, validate_agent_process, other) h
      ]

  kill_if_there-ToAgents :
      (pid : ℕ) (trace : Trace)
      → ToAgents trace.sent
      → ToAgents (kill_if_there world pid trace).1.sent
  unfolding kill_if_there look
  kill_if_there-ToAgents pid trace h = elim (Bool-cases (world.exists trace.looks pid)) [
    | inr gone ↦ rw (kill_if_there, gone) h
    | inl there ↦ rw (kill_if_there, there) (kill_hard-ToAgents pid (look trace) h)
  ]

  finish_after-ToAgents :
      (fuel pid : ℕ) (outcome : Outcome)
      → ToAgents outcome.1.sent
      → ToAgents (finish_after world fuel pid outcome).1.sent
  unfolding finish_after finish look
  finish_after-ToAgents fuel pid (err e, trace) h = h
  finish_after-ToAgents fuel pid (ok u, trace) h = subst ToAgents (sym (wait-sent fuel pid trace)) h

  stop_within-ToAgents :
      (first second pid : ℕ) (trace : Trace)
      → IsAgentAt trace.looks pid
      → ToAgents trace.sent
      → ToAgents (stop_within world first second pid trace).1.sent
  unfolding stop_within
  stop_within-ToAgents first second pid trace seen h = finish_after-ToAgents second pid _ (
      kill_if_there-ToAgents pid _ (
        subst ToAgents (sym (wait-sent first pid (send sigterm pid trace)))
          (send-ToAgents sigterm pid trace seen h)))

  stop_agent_process-ToAgents :
      (pid : ℕ) (trace : Trace)
      → IsAgentAt trace.looks pid
      → ToAgents trace.sent
      → ToAgents (stop_agent_process world pid trace).1.sent
  unfolding stop_agent_process
  stop_agent_process-ToAgents pid trace seen h = stop_within-ToAgents 120 80 pid trace seen h

  stop_if_agent-ToAgents :
      (pid : ℕ) (trace : Trace)
      → ToAgents trace.sent
      → ToAgents (stop_if_agent world pid trace).1.sent
  unfolding stop_if_agent validate_agent_process look
  stop_if_agent-ToAgents pid trace h = elim (Bool-cases (world.exists trace.looks pid)) [
    | inr gone ↦ rw (stop_if_agent, gone) h
    | inl there ↦
        elim (Result-cases (check_command_line pid (world.command_line (trace.looks + 1) pid))) [
          | inr (e, other) ↦ rw (stop_if_agent, there, validate_agent_process, other) h
          | inl (u, agent) ↦
              rw (stop_if_agent, there, validate_agent_process, agent)
                (stop_agent_process-ToAgents pid _ (trace.looks + 1, refl, agent) h)
        ]
  ]

  stop_existing_agents-ToAgents :
      (pids : List ℕ) (trace : Trace)
      → ToAgents trace.sent
      → ToAgents (stop_existing_agents world pids trace).1.sent
  unfolding stop_existing_agents
  stop_existing_agents-ToAgents [] trace h = h
  stop_existing_agents-ToAgents (pid ∷ pids) trace h =
      let stopped = stop_if_agent-ToAgents pid trace h in
      elim (Result-cases (stop_if_agent world pid trace).0) [
        | inr (e, failed) ↦ rw (stop_existing_agents, failed) stopped
        | inl (u, went) ↦
            rw (stop_existing_agents, went) (stop_existing_agents-ToAgents pids _ stopped)
      ]

  replace_agent-ToAgents :
      (owner : Result ShimError ℕ) (trace : Trace)
      → ToAgents trace.sent
      → ToAgents (replace_agent world owner trace).1.sent
  unfolding replace_agent validate_agent_process look
  replace_agent-ToAgents (err e) trace h = h
  replace_agent-ToAgents (ok pid) trace h =
      elim (Result-cases (check_command_line pid (world.command_line trace.looks pid))) [
        | inr (e, other) ↦ rw (replace_agent, validate_agent_process, other) h
        | inl (u, agent) ↦
            rw (replace_agent, validate_agent_process, agent)
              (stop_agent_process-ToAgents pid _ (trace.looks, refl, agent) h)
      ]

  clear_socket-ToAgents :
      (replace : Bool) (path : SocketPath) (trace : Trace)
      → ToAgents trace.sent
      → ToAgents (clear_socket world replace path trace).1.sent
  unfolding clear_socket
  clear_socket-ToAgents replace free trace h = h
  clear_socket-ToAgents replace not_socket trace h = h
  clear_socket-ToAgents replace stale trace h = h
  clear_socket-ToAgents false (live owner) trace h = h
  clear_socket-ToAgents true (live owner) trace h = replace_agent-ToAgents owner trace h

  prepare-ToAgents :
      (replace : Bool) (agents : List ℕ) (path : ℕ → SocketPath) (trace : Trace)
      → ToAgents trace.sent
      → ToAgents (prepare_agent_socket world replace agents path trace).1.sent
  unfolding prepare_agent_socket
  prepare-ToAgents false agents path trace h = clear_socket-ToAgents false _ trace h
  prepare-ToAgents true agents path trace h =
      let stopped = stop_existing_agents-ToAgents agents trace h in
      elim (Result-cases (stop_existing_agents world agents trace).0) [
        | inr (e, failed) ↦ rw (prepare_agent_socket, failed) stopped
        | inl (u, went) ↦ rw (prepare_agent_socket, went) (clear_socket-ToAgents true _ _ stopped)
      ]

  not_signalled : (path : SocketPath) → (clear_socket world false path start).1.sent ≡ []
  unfolding clear_socket
  not_signalled free = refl
  not_signalled not_socket = refl
  not_signalled stale = refl
  not_signalled (live owner) = refl

  -- Whatever the other processes do meanwhile, preparing the agent's socket signals only processes
  -- whose command line, at the last look before the signal, is that of an agent; and without the
  -- request to replace it signals none.
  pub prepare_agent_socket-ToAgents :
      (replace : Bool) (agents : List ℕ) (path : ℕ → SocketPath)
      → ToAgents (prepare_agent_socket world replace agents path start).1.sent
        × (replace ≡ false → (prepare_agent_socket world replace agents path start).1.sent ≡ [])
  unfolding prepare_agent_socket
  prepare_agent_socket-ToAgents replace agents path =
      (prepare-ToAgents replace agents path start tt, λ h. rw h (not_signalled (path 0)))

  finish_after-gone :
      (fuel pid : ℕ) (outcome : Outcome)
      → (finish_after world fuel pid outcome).0 ≡ ok tt
      → (last : ℕ) × ((finish_after world fuel pid outcome).1.looks ≡ last + 1)
        × (world.exists last pid ≡ false)
  unfolding finish_after finish look
  finish_after-gone fuel pid (err e, trace) h = cc
  finish_after-gone fuel pid (ok u, trace) h =
      let waited = wait_while_exists world fuel pid trace in
      elim (Bool-cases (world.exists waited.looks pid)) [
        | inl there ↦ cc (rw there at h)
        | inr gone ↦ (waited.looks, refl, gone)
      ]

  -- If stopping an agent succeeds, then at the last look the process was gone.
  pub stop_agent_process_gone :
      (pid : ℕ) (trace : Trace)
      → (stop_agent_process world pid trace).0 ≡ ok tt
      → (last : ℕ) × ((stop_agent_process world pid trace).1.looks ≡ last + 1)
        × (world.exists last pid ≡ false)
  unfolding stop_agent_process stop_within
  stop_agent_process_gone pid trace h = finish_after-gone 80 pid _ h
