-- ===== src/Shim/Agents.antt =====
-- crates/cxs-shim/src/main.rs and crates/cxs-shim/src/unix/agent_process.rs (Linux): how an older agent
-- is found and stopped. The processes change while the shim looks at them: every look at one is
-- numbered, and the numbers say what it shows.
pub mod Signals
use codex_shuttle.Prelude.{
  ℕ, suc, zero, ◌+◌, String, Bool, true, false, not, ◌&&◌, ◌||◌, List, [], ◌∷◌, ◌++◌, Option, none,
  some, ◌==◌, nat_eq, string_eq, leb, if◌then◌else◌, any, Result, ok, err,
}
use codex_shuttle.Prelude.Text.{bytes}
use codex_shuttle.Prelude.Strings.{split_lines, split_words}
use codex_shuttle.Mux.Channel.{bytes_eq}
use codex_shuttle.Shim.{
  ShimError, not_a_socket, already_listening, could_not_inspect, not_an_agent, could_not_stop,
}

-- `command_line.split(|byte| *byte == 0)`
unfoldable pub split_nul : List ℕ → List (List ℕ)
split_nul [] = [] ∷ []
split_nul (b ∷ bs) =
    let rest = split_nul bs in
    if b == 0
    then [] ∷ rest
    else elim rest [ [] ↦ (b ∷ []) ∷ [] | ◌∷◌ piece pieces ↦ (b ∷ piece) ∷ pieces ]

unfoldable pub is_agent_command_line : List ℕ → Bool
unfolding split_nul bytes
is_agent_command_line command_line =
    any (λ argument. bytes_eq argument (bytes "__cxs-agent")) (split_nul command_line)

-- An entry of `/proc`: the number that its name spells, its owner and its command line, where readable.
pub record ProcEntry : Type 0 where
  pub raw_pid : Option ℕ
  pub uid : Option ℕ
  pub command_line : Option (List ℕ)

unfoldable pub is_candidate : ℕ → ℕ → ℕ → Option ℕ → Option (List ℕ) → Bool
is_candidate process_id user_id raw_pid (some uid) (some command_line) =
    not (leb raw_pid 1 || raw_pid == process_id)
    && uid == user_id
    && is_agent_command_line command_line
is_candidate process_id user_id raw_pid _ _ = false

insert_pid : ℕ → List ℕ → List ℕ
insert_pid pid [] = pid ∷ []
insert_pid pid (other ∷ others) =
    let later = insert_pid pid others in
    if leb pid other then pid ∷ other ∷ others else other ∷ later

-- Sorted as the source sorts at the end.
unfoldable pub existing_agent_processes : ℕ → ℕ → List ProcEntry → List ℕ
unfolding insert_pid is_candidate
existing_agent_processes process_id user_id [] = []
existing_agent_processes process_id user_id (entry ∷ entries) =
    let rest = existing_agent_processes process_id user_id entries in
    elim entry.raw_pid [
      | none ↦ rest
      | some pid ↦
          if is_candidate process_id user_id pid entry.uid entry.command_line
          then insert_pid pid rest
          else rest
    ]

-- `fields.nth(6)` and the field behind it.
unfoldable pub inode_field : List String → Option (String × String)
inode_field (a ∷ b ∷ c ∷ d ∷ e ∷ f ∷ inode ∷ path ∷ rest) = some (inode, path)
inode_field _ = none

unfoldable pub find_in_lines : List String → String → Option String
unfolding inode_field split_words
find_in_lines [] path = none
find_in_lines (line ∷ lines) path =
    let later = find_in_lines lines path in
    elim (inode_field (split_words line)) [
      | none ↦ later
      | some (inode, found) ↦ if found == path then some inode else later
    ]

unfoldable pub behind_first : List String → List String
behind_first [] = []
behind_first (line ∷ lines) = lines

unfoldable pub find_unix_socket_inode : String → String → Option String
unfolding find_in_lines behind_first split_lines
find_unix_socket_inode table path = find_in_lines (behind_first (split_lines table)) path

pub data Signal : Type 0 where
  sigterm sigkill : Signal

-- What the looks at a process show: whether it exists and is no zombie, and its command line.
pub record World : Type 0 where
  pub exists : ℕ → ℕ → Bool
  pub command_line : ℕ → ℕ → Option (List ℕ)

-- A signal, with the number of looks before it.
pub record Sent : Type 0 where
  pub after : ℕ
  pub signal : Signal
  pub pid : ℕ

pub record Trace : Type 0 where
  pub looks : ℕ
  pub sent : List Sent

abbrev pub Outcome : Type 0
Outcome = Result ShimError (Unit {0}) × Trace

unfoldable pub look : Trace → Trace
look trace = record trace { looks = trace.looks + 1 }

unfoldable pub send : Signal → ℕ → Trace → Trace
send signal pid trace = record trace {
  sent = trace.sent ++ record { after = trace.looks; signal = signal; pid = pid } ∷ [];
}

unfoldable pub check_command_line : ℕ → Option (List ℕ) → Result ShimError (Unit {0})
unfolding is_agent_command_line
check_command_line pid none = err (could_not_inspect pid)
check_command_line pid (some command_line) =
    if is_agent_command_line command_line then ok tt else err (not_an_agent pid)

module _ (world : World) where
  unfoldable pub validate_agent_process : ℕ → Trace → Outcome
  unfolding check_command_line look
  validate_agent_process pid trace =
      (check_command_line pid (world.command_line trace.looks pid), look trace)

  -- Looks every 25 ms while the process is there, as often as the fuel says.
  unfoldable pub wait_while_exists : ℕ → ℕ → Trace → Trace
  unfolding look
  wait_while_exists zero pid trace = look trace
  wait_while_exists (suc fuel) pid trace =
      let later = wait_while_exists fuel pid (look trace) in
      if world.exists trace.looks pid then later else look trace

  unfoldable pub finish : ℕ → Trace → Outcome
  unfolding look
  finish pid trace =
      (if world.exists trace.looks pid then err (could_not_stop pid) else ok tt, look trace)

  -- A process that SIGTERM did not stop is looked at again before SIGKILL.
  unfoldable pub kill_hard : ℕ → Trace → Outcome
  unfolding validate_agent_process send
  kill_hard pid trace =
      let checked = validate_agent_process pid trace in
      elim checked.0 [ err e ↦ (err e, checked.1) | ok _ ↦ (ok tt, send sigkill pid checked.1) ]

  unfoldable pub kill_if_there : ℕ → Trace → Outcome
  unfolding kill_hard look
  kill_if_there pid trace =
      if world.exists trace.looks pid then kill_hard pid (look trace) else (ok tt, look trace)

  unfoldable pub finish_after : ℕ → ℕ → Outcome → Outcome
  unfolding finish wait_while_exists
  finish_after fuel pid (killed, trace) = elim killed [
    | err e ↦ (err e, trace)
    | ok _ ↦ finish pid (wait_while_exists fuel pid trace)
  ]

  -- The two waits, in numbers of looks.
  unfoldable pub stop_within : ℕ → ℕ → ℕ → Trace → Outcome
  unfolding send wait_while_exists kill_if_there finish_after
  stop_within first second pid trace =
      finish_after second pid
        (kill_if_there pid (wait_while_exists first pid (send sigterm pid trace)))

  -- 3 s and then 2 s in steps of 25 ms.
  unfoldable pub stop_agent_process : ℕ → Trace → Outcome
  unfolding stop_within
  stop_agent_process pid trace = stop_within 120 80 pid trace

  -- A process that is found to be gone is passed over.
  unfoldable pub stop_if_agent : ℕ → Trace → Outcome
  unfolding look validate_agent_process stop_agent_process
  stop_if_agent pid trace =
      let checked = validate_agent_process pid (look trace) in
      if world.exists trace.looks pid
      then elim checked.0 [
        | ok _ ↦ stop_agent_process pid checked.1
        | err e ↦ (if world.exists checked.1.looks pid then err e else ok tt, look checked.1)
      ]
      else (ok tt, look trace)

  unfoldable pub stop_existing_agents : List ℕ → Trace → Outcome
  unfolding stop_if_agent
  stop_existing_agents [] trace = (ok tt, trace)
  stop_existing_agents (pid ∷ pids) trace =
      let stopped = stop_if_agent pid trace in
      let later = stop_existing_agents pids stopped.1 in
      elim stopped.0 [ err e ↦ (err e, stopped.1) | ok _ ↦ later ]

  -- The owner of the socket, as `active_agent_pid` finds it.
  unfoldable pub replace_agent : Result ShimError ℕ → Trace → Outcome
  unfolding validate_agent_process stop_agent_process
  replace_agent (err e) trace = (err e, trace)
  replace_agent (ok pid) trace =
      let checked = validate_agent_process pid trace in
      elim checked.0 [ err e ↦ (err e, checked.1) | ok _ ↦ stop_agent_process pid checked.1 ]

-- What stands at the agent's socket path; a socket somebody listens on, or one that is left over.
pub data SocketPath : Type 0 where
  free not_socket stale : SocketPath
  live : Result ShimError ℕ → SocketPath

module _ (world : World) where
  unfoldable pub clear_socket : Bool → SocketPath → Trace → Outcome
  unfolding replace_agent
  clear_socket replace free trace = (ok tt, trace)
  clear_socket replace not_socket trace = (err not_a_socket, trace)
  clear_socket replace stale trace = (ok tt, trace)
  clear_socket false (live owner) trace = (err already_listening, trace)
  clear_socket true (live owner) trace = replace_agent world owner trace

  -- `prepare_agent_socket`; what stands at the path is seen after the older agents are stopped.
  unfoldable pub prepare_agent_socket : Bool → List ℕ → (ℕ → SocketPath) → Trace → Outcome
  unfolding clear_socket stop_existing_agents
  prepare_agent_socket false agents path trace = clear_socket false (path trace.looks) trace
  prepare_agent_socket true agents path trace =
      let stopped = stop_existing_agents world agents trace in
      let cleared = clear_socket true (path stopped.1.looks) stopped.1 in
      elim stopped.0 [ err e ↦ (err e, stopped.1) | ok _ ↦ cleared ]
