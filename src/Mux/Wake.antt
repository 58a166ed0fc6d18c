-- ===== src/Mux/Wake.antt =====
-- crates/cxs-mux/src/lib.rs: `MuxStream`, which wakes the driver round every operation. The driver's
-- command queue is a bounded channel; `try_send` on a full or closed channel drops the command.
use codex_shuttle.Prelude.{
  ℕ, ◌≤◌, ◌<◌, ◌≡◌, refl, Bool, true, ◌&&◌, List, [], ◌∷◌, ◌++◌, ◌∙◌, arith, ltb, if◌then◌else◌,
  length, length-append,
}

pub data DriverCommand : Type 0 where
  open_stream : ℕ → DriverCommand
  wake : DriverCommand

pub record CommandQueue : Type 0 where
  pub capacity : ℕ
  pub receiving : Bool
  pub commands : List DriverCommand

unfoldable pub try_send : DriverCommand → CommandQueue → CommandQueue
try_send c q =
    if q.receiving && ltb (length q.commands) q.capacity
    then record q { commands = q.commands ++ c ∷ [] }
    else q

unfoldable pub wake_driver : CommandQueue → CommandQueue
unfolding try_send
wake_driver q = try_send wake q

-- `poll_read`, `poll_write`, `poll_flush` and `poll_shutdown`: the operation of the inner stream,
-- which may itself queue work, between two wakes. The driver runs beside it: `meanwhile` is what it and
-- other streams do to the command queue during the operation.
module _ {S R : Type 0} where
  unfoldable pub poll_woken :
      (S → R × S) → (CommandQueue → CommandQueue) → S → CommandQueue → R × S × CommandQueue
  unfolding wake_driver
  poll_woken poll meanwhile s q =
      let q' = meanwhile (wake_driver q) in
      let (result, s') = poll s in (result, s', wake_driver q')

-- A queue within its capacity.
abbrev pub IsBounded : CommandQueue → Type 0
IsBounded q = length q.commands ≤ q.capacity

-- There is something to wake the driver.
abbrev pub IsNotified : CommandQueue → Type 0
IsNotified q = 0 < length q.commands

try_send-IsBounded : (c : DriverCommand) (q : CommandQueue) → IsBounded q → IsBounded (try_send c q)
unfolding try_send
try_send-IsBounded c q h = ground (arith, length-append q.commands (c ∷ []))

wake_driver-IsNotified :
    (q : CommandQueue) → q.receiving ≡ true → 0 < q.capacity → IsNotified (wake_driver q)
unfolding wake_driver
wake_driver-IsNotified q h k = ground (arith, length-append q.commands (wake ∷ []))

wake_driver_same :
    (q : CommandQueue)
    → ((wake_driver q).capacity ≡ q.capacity) × ((wake_driver q).receiving ≡ q.receiving)
unfolding wake_driver
wake_driver_same q = (ground arith, ground arith)

module _ {S R : Type 0} (poll : S → R × S) (meanwhile : CommandQueue → CommandQueue) (s : S)
    (q : CommandQueue) where
  -- The queue, full, closed or open, never changes what the operation of the inner stream returns
  -- or does, and a queue within its capacity stays within it, where this is so of what happens
  -- meanwhile.
  pub poll_woken_lem :
      ((c : CommandQueue) → IsBounded c → IsBounded (meanwhile c))
      → IsBounded q
      → ((poll_woken poll meanwhile s q).0 ≡ (poll s).0)
        × ((poll_woken poll meanwhile s q).1 ≡ (poll s).1)
        × IsBounded (poll_woken poll meanwhile s q).2
  unfolding poll_woken
  poll_woken_lem bounded h = (
    refl,
    refl,
    try_send-IsBounded wake (meanwhile (wake_driver q))
        (bounded (wake_driver q) (try_send-IsBounded wake q h)),
  )

  -- Whatever the driver takes from its queue during an operation, a command waits for it afterwards,
  -- and it found one at the start of the operation as well: where the driver still receives, over a
  -- queue with room for any command at all, and what happens meanwhile leaves these two alone.
  pub poll_woken-IsNotified :
      ((c : CommandQueue) → (meanwhile c).receiving ≡ c.receiving)
      → ((c : CommandQueue) → (meanwhile c).capacity ≡ c.capacity)
      → q.receiving ≡ true
      → 0 < q.capacity
      → IsNotified (poll_woken poll meanwhile s q).2
        × ((found : CommandQueue) × IsNotified found
            × ((poll_woken poll meanwhile s q).2 ≡ try_send wake (meanwhile found)))
  unfolding poll_woken
  poll_woken-IsNotified same_end same_room receives room =
      let (room_eq, end_eq) = wake_driver_same q in
      (
        wake_driver-IsNotified (meanwhile (wake_driver q))
            (same_end (wake_driver q) ∙ end_eq ∙ receives)
            (omega (arith, same_room (wake_driver q), room_eq)),
        (wake_driver q, wake_driver-IsNotified q receives room, refl),
      )
