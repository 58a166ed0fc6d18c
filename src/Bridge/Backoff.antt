-- ===== src/Bridge/Backoff.antt =====
-- crates/cxs-bridge/src/lib.rs: `agent_reconnect_delay` and the retry loop of `serve`. Times are in
-- milliseconds.
use native.Mathlib.Nat.{pow-suc}
use codex_shuttle.Prelude.{
  ℕ, zero, suc, ◌+◌, ◌-◌, ◌*◌, ◌^◌, ◌≤◌, ◌<◌, min, ◌≡◌, List, [], ◌∷◌, arith, leb, le→leb,
  if◌then◌else◌, All,
}

abbrev pub initial_delay : ℕ
initial_delay = 250

abbrev pub max_delay : ℕ
max_delay = 5000

abbrev pub stable_window : ℕ
stable_window = 30000

abbrev pub u32_max : ℕ
u32_max = 2 ^ 32 - 1

-- `1_u32 << exponent` does not overflow, since the exponent is at most 8.
unfoldable pub agent_reconnect_delay : ℕ → ℕ
agent_reconnect_delay consecutive_failures =
    let exponent = min (consecutive_failures - 1) 8 in min (initial_delay * 2 ^ exponent) max_delay

-- How one turn of the loop ended: the agent did not connect, its transport stopped with an error
-- after so many milliseconds, or the bridge was asked to stop.
pub data Attempt : Type 0 where
  not_connected : Attempt
  stopped : ℕ → Attempt
  shut_down : Attempt

-- `consecutive_failures` after the turn, with `saturating_add`.
unfoldable pub failures_after : Attempt → ℕ → ℕ
failures_after (stopped elapsed) n = min ((if leb stable_window elapsed then 0 else n) + 1) u32_max
failures_after _ n = min (n + 1) u32_max

-- The delays that `serve` sleeps for, turn by turn, until it returns.
unfoldable pub serve_delays : List Attempt → ℕ → List ℕ
unfolding failures_after
serve_delays [] n = []
serve_delays (shut_down ∷ rest) n = []
serve_delays (a ∷ rest) n =
    let n' = failures_after a n in agent_reconnect_delay n' ∷ serve_delays rest n'

pow_pos : (e : ℕ) → 1 ≤ 2 ^ e
pow_pos zero = omega arith
pow_pos (suc e) = omega (arith, pow-suc 2 e, pow_pos e)

pow_mono : (d e : ℕ) → 2 ^ e ≤ 2 ^ (d + e)
pow_mono zero e = let h : 0 + e ≡ e = omega arith in rw h (omega arith)
pow_mono (suc d) e =
    let h : suc d + e ≡ suc (d + e) = omega arith in
    rw h (omega (arith, pow-suc 2 (d + e), pow_mono d e))

pow_mono_le : (m n : ℕ) → m ≤ n → 2 ^ m ≤ 2 ^ n
pow_mono_le m n h = let e : n ≡ (n - m) + m = omega arith in rw e (pow_mono (n - m) m)

-- Whatever the number of failures, the delay is between 250 ms and 5 s.
pub agent_reconnect_delay_bounds :
    (n : ℕ) → (initial_delay ≤ agent_reconnect_delay n) × (agent_reconnect_delay n ≤ max_delay)
unfolding agent_reconnect_delay
agent_reconnect_delay_bounds n =
    (omega (arith, pow_pos (min (n - 1) 8)), omega (arith, pow_pos (min (n - 1) 8)))

-- More failures never shorten the delay.
pub agent_reconnect_delay_mono :
    (m n : ℕ) → m ≤ n → agent_reconnect_delay m ≤ agent_reconnect_delay n
unfolding agent_reconnect_delay
agent_reconnect_delay_mono m n h =
    omega (arith, pow_mono_le (min (m - 1) 8) (min (n - 1) 8) (omega arith))

-- From the sixth failure in a row on, the delay is the maximum.
pub agent_reconnect_delay_max : (n : ℕ) → 6 ≤ n → agent_reconnect_delay n ≡ max_delay
unfolding agent_reconnect_delay
agent_reconnect_delay_max n h = omega (arith, pow_mono_le 5 (min (n - 1) 8) (omega arith))

-- Connections that stay up for less than 30 s, and failed ones, count alike.
abbrev pub IsUnstable : Attempt → Type 0
IsUnstable not_connected = Unit {0}
IsUnstable (stopped elapsed) = elapsed < stable_window
IsUnstable shut_down = ⊥

-- Each entry is at least the bound and at most the next entry.
abbrev pub IsIncreasing : ℕ → List ℕ → Type 0
IsIncreasing low [] = Unit {0}
IsIncreasing low (d ∷ ds) = (low ≤ d) × IsIncreasing d ds

failures_after_mono : (a : Attempt) (n : ℕ) → n ≤ u32_max → IsUnstable a → n ≤ failures_after a n
unfolding failures_after
failures_after_mono not_connected n h u = omega arith
failures_after_mono (stopped elapsed) n h u = ground arith
failures_after_mono shut_down n h u = omega arith

failures_after-le : (a : Attempt) (n : ℕ) → failures_after a n ≤ u32_max
unfolding failures_after
failures_after-le not_connected n = omega arith
failures_after-le (stopped elapsed) n = omega arith
failures_after-le shut_down n = omega arith

serve_delays_grow :
    (turns : List Attempt) (low n : ℕ)
    → All IsUnstable turns
    → n ≤ u32_max
    → low ≤ agent_reconnect_delay n
    → IsIncreasing low (serve_delays turns n)
unfolding serve_delays
serve_delays_grow [] low n u h l = tt
serve_delays_grow (shut_down ∷ rest) low n u h l = tt
serve_delays_grow (a ∷ rest) low n (u, us) h l =
    let n' = failures_after a n in
    let grows = agent_reconnect_delay_mono n n' (failures_after_mono a n h u) in
    (
      omega (arith, grows),
      serve_delays_grow rest (agent_reconnect_delay n') n' us (failures_after-le a n) (omega arith),
    )

-- While no connection stays up for 30 s, the delays of the retry loop never get shorter, from 250 ms
-- on, whatever mixture of failures ends the turns.
pub serve_delays-IsIncreasing :
    (turns : List Attempt)
    → All IsUnstable turns
    → IsIncreasing initial_delay (serve_delays turns 0)
serve_delays-IsIncreasing turns u =
    serve_delays_grow turns initial_delay 0 u (omega arith) (agent_reconnect_delay_bounds 0).0

-- A connection that was up for 30 s or more resets the backoff: the next delay is the initial one.
pub serve_delays_reset :
    (elapsed n : ℕ) (rest : List Attempt)
    → stable_window ≤ elapsed
    → serve_delays (stopped elapsed ∷ rest) n ≡ initial_delay ∷ serve_delays rest 1
unfolding serve_delays agent_reconnect_delay
serve_delays_reset elapsed n rest h = rw (le→leb stable_window elapsed h)
