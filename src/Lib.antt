-- ===== src/Lib.antt =====
-- codex-shuttle lets a desktop application work with Codex on a remote machine. A local bridge speaks
-- to the desktop (through a small remote shim and a WebSocket or JSON lines), to a local App Server
-- that it starts, and to a Host App Server on the remote machine; one SSH connection carries all
-- remote channels.
--
-- The parts and their modules:
-- - Prelude: numbers, lists, results, texts as bytes and association lists; Json: serde_json's values
--   and maps, with reading and writing of JSON text as the parameter `Codec`.
-- - Core (crates/cxs-core/src): Names holds the validators, Routing the method tables, Profile the
--   records, Scope the threads of a profile, Paths the files of a profile and the search for Codex,
--   and Store the profile store on a model of the directories under `profiles`.
-- - Mux (crates/cxs-mux/src/lib.rs): Channel is the header of a stream (`MuxHandle::open`,
--   `identify_inbound`), Wake is `MuxStream` with its bounded command queue, Driver is `run_driver`
--   as a step on what its `select!` yields, Delivery its runs.
-- - Bridge (crates/cxs-bridge/src/lib.rs): Backoff (`agent_reconnect_delay`, the loop of `serve`),
--   Lines (`read_bounded_line`, `write_line`), Handshake (`read_handshake`, `validate_handshake`),
--   Arguments (`app_server_arguments`), Registration (`EnvironmentRegistration`), Rewrite
--   (`rewrite_client_message`), Threads (`record_owned_thread`, `filter_thread_list_response`),
--   Metadata (the shadow of a thread/start request on the host), Host (what is routed to the host
--   and what of it is passed on), Jsonl (`relay_jsonl`) and Websocket (`relay_websocket`). Both
--   relays are a step function on the relay's variables and on lists of what has been written, with
--   a relation `Reach` of the states that sequences of steps lead to. A step of `relay_jsonl` starts
--   from what a completed read returned; Jsonl.Reads is the two reads that its `select!` runs side by
--   side, of which the slower one is dropped with what it has consumed, and Jsonl.Loop the loop on the
--   bytes that they take; a line of the host in `relay_websocket` is what a completed read returned,
--   too. Websocket has a module for the
--   state, for each of the three peers, for the turn, and for what the turns keep.
-- - Prelude.Strings: the text functions of the standard library that the crates below use, such as
--   `lines`, `trim`, `split_once` and `to_ascii_lowercase`.
-- - Ssh (crates/cxs-ssh/src/lib.rs): Quote (`quote_value`), Snapshot (`batch_arguments`,
--   `parse_ssh_g`, `SshSnapshot::resolve`), Render (`render_host`, `ensure_managed_include`) and
--   Remote (`test_connection`, `query_remote`). The command `ssh` is the parameter `Ssh`.
-- - Sessions (crates/cxs-sessions/src/lib.rs): Names (`validate_rollout_path`, `shell_quote`),
--   Archive (`receive_remote_rollouts`), Rollout (`inspect_and_rewrite`), Config
--   (`resolve_provider`), Import (`import_staged_rollouts`, `sync_from_remote`), Changes
--   (`collect_repair_changes`), Apply (`apply_repair`) and Repair (`repair_local` with its backup and
--   rollback). Files are a map from their path below the Codex home to their bytes, where a path has
--   one spelling, without doubled slashes or `.`. Whether a write succeeds is an argument, in a repair
--   the record `Faults`, and the database is the one at the path of `resolve_state_db`, or none.
-- - Shim (crates/cxs-shim/src): Dispatch is about `run`, Session is `open_bridge_session`, Agents
--   finds and stops other agents (main.rs, unix/agent_process.rs), Control is the control socket and
--   the guards that remove it. Looks at other processes are numbered, and each look may see other
--   processes than the one before; the waits of 3 s and 2 s in steps of 25 ms are 120 and 80 looks.
--
-- Numbers are the native ones, written with the bounds of the source (`saturating_sub` is
-- subtraction, `saturating_add` is a minimum where the bound can be met). `pending_client_bytes` is a
-- `usize` that stays below 32 MiB and one message, so its saturation is not met. Loops are
-- structural recursion: on the queue, on the list of buffers or events, or on the arguments. Errors
-- are values of `BridgeError`, `SshError`, `SessionError` and `ShimError`, one for each `bail!` and
-- `context`, with one for all failures to read or write a file. A failed write ends a relay with
-- its error and leads to no state, so writes are taken to succeed. Hash maps are association lists;
-- the order in which they are searched is that of insertion.
--
-- Parameters: the JSON codec, base64 and UTF-8 decoding, the constant-time comparison of tokens, the
-- JSON decoders of handshakes and of the profile's files, the command `ssh`, tar streams, SQLite and
-- TOML. In the store, whether a write reaches the disk and what is drawn at random is an argument; a
-- directory is removed whole. Not modelled: processes, sockets, permissions and temporary files;
-- Yamux; the locks of the profile store; saving and loading an SSH snapshot; the relays of bytes and
-- the exec server's process in the shim; and the crates cxs-install, cxs-cli and cxs-probe.
pub mod Prelude
pub mod Json
pub mod Core
pub mod Mux
pub mod Bridge
pub mod Ssh
pub mod Sessions
pub mod Shim
