-- ===== src/Mux/Driver.antt =====
-- crates/cxs-mux/src/lib.rs: `run_driver`, `handle_inbound`, `identify_inbound` and the part of
-- `MuxHandle::open` that the driver serves, as a step on the events of its `select!`. Yamux itself
-- is not in the repository: the streams that it opens and accepts are numbers, and what a new
-- stream delivers as its header is part of the event.
use codex_shuttle.Prelude.{
  ℕ, ◌≡◌, ◌⊎◌, Bool, true, false, List, [], ◌∷◌, ◌++◌, Option, none, some, if◌then◌else◌, Result,
  ok, err,
}
use codex_shuttle.Mux.Channel.{
  ChannelKind, MuxError, receiver_closed, connection_failed, connection_closed, identify,
  stream_header,
}

-- `stream` delivers `unread` to whoever reads on.
pub record IncomingChannel : Type 0 where
  pub kind : ChannelKind
  pub stream : ℕ
  pub unread : List ℕ

pub data Event : Type 0 where
  -- `commands.recv()`: a request to open with the connection's answer, a wake, or the end
  opens : Option ℕ → Event
  wakes : Event
  commands_end : Event
  -- `poll_next_inbound`
  inbound : ℕ → Event
  inbound_failed : Event
  inbound_end : Event
  -- a spawned `identify_inbound` has read the stream's bytes; `none` is its time limit
  header : ℕ → Option (List ℕ) → Event
  -- `faults.recv()`
  fault : Event
  -- the receiver of the incoming channels is dropped
  receiver_dropped : Event

pub record Driver : Type 0 where
  pub commands_open : Bool
  pub receiver_open : Bool
  pub responses : List (Option ℕ)
  pub spawned : List ℕ
  pub incoming : List IncomingChannel
  pub faults : List MuxError

abbrev pub start : Driver
start = record {
  commands_open = true;
  receiver_open = true;
  responses = [];
  spawned = [];
  incoming = [];
  faults = [];
}

-- `handle_inbound`
unfoldable pub handle_inbound : Option (Option ℕ) → Driver → Result MuxError Driver
handle_inbound (some (some stream)) d = ok (record d { spawned = d.spawned ++ stream ∷ [] })
handle_inbound (some none) d = err connection_failed
handle_inbound none d = err connection_closed

-- The end of `identify_inbound`: the channel is delivered, or its error becomes a fault.
unfoldable pub deliver : ℕ → Result MuxError (ChannelKind × List ℕ) → Driver → Driver
deliver stream (err e) d = record d { faults = d.faults ++ e ∷ [] }
deliver stream (ok (kind, unread)) d =
    if d.receiver_open
    then record d {
      incoming = d.incoming ++ record { kind = kind; stream = stream; unread = unread } ∷ [];
    }
    else record d { faults = d.faults ++ receiver_closed ∷ [] }

unfoldable pub take_fault : List MuxError → Driver → Result MuxError Driver
take_fault [] d = ok d
take_fault (e ∷ es) d = err e

-- One turn of the loop. An error ends the driver.
unfoldable pub step : Event → Driver → Result MuxError Driver
unfolding handle_inbound deliver take_fault
step (opens answer) d =
    if d.commands_open then ok (record d { responses = d.responses ++ answer ∷ [] }) else ok d
step wakes d = ok d
step commands_end d = ok (record d { commands_open = false })
step (inbound stream) d = handle_inbound (some (some stream)) d
step inbound_failed d = handle_inbound (some none) d
step inbound_end d = handle_inbound none d
step (header stream bytes) d = ok (deliver stream (identify bytes) d)
step fault d = take_fault d.faults d
step receiver_dropped d = ok (record d { receiver_open = false })

unfoldable pub continue :
    (Driver → Result MuxError Driver) → Result MuxError Driver → Result MuxError Driver
continue f (ok d) = f d
continue f (err e) = err e

unfoldable pub run_driver : List Event → Driver → Result MuxError Driver
unfolding step continue
run_driver [] d = ok d
run_driver (e ∷ es) d = continue (run_driver es) (step e d)

-- What the stream sent: the header of the kind under which it was delivered, then what is unread.
abbrev pub WasSent : List Event → IncomingChannel → Type 0
WasSent [] c = ⊥
WasSent (header stream (some bs) ∷ es) c =
    ((stream ≡ c.stream) × (bs ≡ stream_header c.kind ++ c.unread)) ⊎ WasSent es c
WasSent (_ ∷ es) c = WasSent es c
