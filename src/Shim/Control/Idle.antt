-- ===== src/Shim/Control/Idle.antt =====
-- The loop of `serve_control_socket_at`: its count of clients.
use codex_shuttle.Prelude.{
  ℕ, ◌+◌, ◌-◌, ◌<◌, ◌^◌, ◌≡◌, inl, inr, true, List, [], ◌∷◌, arith, ◌==◌, nat_eq, ltb, length,
  Bool-cases,
}
use codex_shuttle.Shim.Control.{
  Event, accepted, completed, idle, accept_failed, ended, disabled, max_usize, saturating_add,
  serve_event, serve_events,
}

abbrev pub accepts : List Event → ℕ
accepts [] = 0
accepts (accepted ∷ events) = accepts events + 1
accepts (completed ∷ events) = accepts events
accepts (idle ∷ events) = accepts events
accepts (accept_failed ∷ events) = accepts events

abbrev pub completions : List Event → ℕ
completions [] = 0
completions (accepted ∷ events) = completions events
completions (completed ∷ events) = completions events + 1
completions (idle ∷ events) = completions events
completions (accept_failed ∷ events) = completions events

last_event :
    (events : List Event) (active : ℕ)
    → (active == 0) ≡ true
    → (elim events [ [] ↦ ended | ◌∷◌ next others ↦ disabled ]) ≡ ended
    → active + accepts (idle ∷ events) ≡ completions (idle ∷ events)
last_event [] active quiet h = ground arith
last_event (next ∷ others) active quiet h = cc

-- The count stands for the clients that are connected, as long as it does not saturate.
serve_events-balanced :
    (events : List Event) (active : ℕ)
    → active + length events < 2 ^ 64
    → serve_events events active ≡ ended
    → active + accepts events ≡ completions events
unfolding serve_events serve_event saturating_add
serve_events-balanced [] active small h = cc
serve_events-balanced (accepted ∷ events) active small h =
    let below : ltb active max_usize ≡ true = ground arith in
    omega (
      arith,
      serve_events-balanced events (active + 1) (omega arith)
          (rw (serve_events, serve_event, saturating_add, below) at h),
    )
serve_events-balanced (completed ∷ events) active small h = elim (Bool-cases (ltb 0 active)) [
  | inr none_left ↦ cc (rw (serve_events, serve_event, none_left) at h)
  | inl some_left ↦
      let rest =
        serve_events-balanced events (active - 1) (omega arith)
          (rw (serve_events, serve_event, some_left) at h) in
      ground (arith, rest, some_left)
]
serve_events-balanced (idle ∷ events) active small h = elim (Bool-cases (active == 0)) [
  | inr busy ↦ cc (rw (serve_events, serve_event, busy) at h)
  | inl quiet ↦ last_event events active quiet (rw (serve_events, serve_event, quiet) at h)
]
serve_events-balanced (accept_failed ∷ []) active small h = cc
serve_events-balanced (accept_failed ∷ next ∷ others) active small h = cc

-- When the loop ends without an error, no client is connected: as many clients were completed as were
-- accepted. (Fewer than 2^64 events, so that the count does not saturate. A failure to accept ends the
-- loop with an error, whoever is connected.)
pub serve_events-accepts :
    (events : List Event)
    → length events < 2 ^ 64
    → serve_events events 0 ≡ ended
    → accepts events ≡ completions events
serve_events-accepts events small h = omega (arith, serve_events-balanced events 0 (omega arith) h)
