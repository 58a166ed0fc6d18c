-- ===== src/Mux/Tests.antt =====
-- The theorems on crates/cxs-mux at concrete inputs.
use codex_shuttle.Prelude.{
  ℕ, ◌+◌, ◌≡◌, refl, ◌≢◌, true, List, [], ◌∷◌, ◌++◌, none, some, All, arith, ok,
}
use codex_shuttle.Mux.Channel.{
  app, exec, header_timeout, identify, stream_header, identify-stream_header,
}
use codex_shuttle.Mux.Wake.{
  CommandQueue, wake, try_send, IsNotified, poll_woken, poll_woken-IsNotified,
}
use codex_shuttle.Mux.Driver.{
  Driver, Event, WasSent, inbound, header, fault, wakes, start, step, run_driver, continue, deliver,
  handle_inbound,
}
use codex_shuttle.Mux.Delivery.{run_driver-WasSent, bad_header_stops}

identify-stream_header_example :
    identify (some (stream_header exec ++ 7 ∷ 8 ∷ [])) ≡ ok (exec, 7 ∷ 8 ∷ [])
identify-stream_header_example = identify-stream_header exec (7 ∷ 8 ∷ [])

-- An inner stream that counts its operations, and the queue of a live driver.
abbrev count : ℕ → ℕ × ℕ
count n = (n, n + 1)

abbrev idle : CommandQueue
idle = record { capacity = 1; receiving = true; commands = [] }

-- The driver takes every command during the operation.
abbrev emptied : CommandQueue → CommandQueue
emptied q = record q { commands = [] }

poll_woken-IsNotified_example :
    IsNotified (poll_woken count emptied 4 idle).2
    × ((found : CommandQueue) × IsNotified found
        × ((poll_woken count emptied 4 idle).2 ≡ try_send wake (emptied found)))
poll_woken-IsNotified_example =
    poll_woken-IsNotified count emptied 4 idle (λ c. refl) (λ c. refl) refl (omega arith)

abbrev accepted : List Event
accepted = inbound 3 ∷ wakes ∷ header 3 (some (67 ∷ 88 ∷ 83 ∷ 50 ∷ 1 ∷ 9 ∷ [])) ∷ []

abbrev delivered : Driver
delivered = record {
  commands_open = true;
  receiver_open = true;
  responses = [];
  spawned = 3 ∷ [];
  incoming = record { kind = app; stream = 3; unread = 9 ∷ [] } ∷ [];
  faults = [];
}

run_driver-WasSent_example : All (WasSent accepted) delivered.incoming
unfolding run_driver continue step deliver handle_inbound identify
run_driver-WasSent_example = run_driver-WasSent accepted delivered refl

bad_header_stops_example :
    run_driver (header 3 none ∷ (inbound 4 ∷ []) ++ fault ∷ []) start ≢ ok delivered
unfolding identify
bad_header_stops_example =
    bad_header_stops 3 none header_timeout (inbound 4 ∷ []) [] start delivered refl
