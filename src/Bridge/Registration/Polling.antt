-- ===== src/Bridge/Registration/Polling.antt =====
-- Answers to environment/status requests, one and several.
use codex_shuttle.Prelude.{
  ℕ, ◌+◌, ◌-◌, ◌≤◌, ◌<◌, ◌≡◌, refl, ap, ◌⊎◌, inl, inr, true, false, List, [], ◌∷◌, Option, none,
  some, arith, Bool-cases, Result-cases, ok, err, ◌>>=◌, >>=-eq-ok, All, length, ltb, if◌then◌else◌,
}
use codex_shuttle.Json.{Value}
use codex_shuttle.Core.Profile.{Profile}
use codex_shuttle.Bridge.Errors.{Fallible, environment_not_ready}
use codex_shuttle.Bridge.Registration.{
  EnvironmentPhase, EnvironmentRegistration, waiting_for_initialize, registering, polling, ready,
  environment_status_ready, environment_status_request, poll_again, handle_status_response,
}

-- The answers to status polls one after another, each to the request that the one before led to;
-- the requests that they lead to, until the environment is ready.
unfoldable pub answers : Profile → EnvironmentRegistration → List Value → Fallible (List Value)
answers profile r [] = ok []
answers profile r (m ∷ ms) = elim (handle_status_response r m profile) [
  | err e ↦ err e
  | ok (r', none) ↦ ok []
  | ok (r', some request) ↦ (answers profile r' ms >>= λ more. ok (request ∷ more))
]

-- The phase's counter stays between 1 and 200.
abbrev pub IsCounted : EnvironmentPhase → Type 0
IsCounted (polling n) = (1 ≤ n) × (n ≤ 200)
IsCounted _ = Unit {0}

-- The polls that a phase has left.
abbrev pub polls_left : EnvironmentPhase → ℕ
polls_left (polling n) = 200 - n
polls_left _ = 0

poll_again_lem :
    (p : EnvironmentPhase) (r : EnvironmentRegistration) (profile : Profile)
    {r' : EnvironmentRegistration} {o : Option Value}
    → poll_again p r profile ≡ ok (r', o)
    → (n : ℕ) × (p ≡ polling n)
      × (n < 200)
      × (r' ≡ record r { phase = polling (n + 1) })
      × (o ≡ some (environment_status_request r.status_request_id profile))
unfolding poll_again
poll_again_lem (polling n) r profile h = (n, refl, ground arith, ground arith, ground arith)
poll_again_lem waiting_for_initialize r profile h = cc
poll_again_lem registering r profile h = cc
poll_again_lem ready r profile h = cc

-- Every accepted status answer either makes the environment ready and asks for nothing, and then
-- the answer said so; or it was one more poll, of at most 200, and asks for the status again.
pub handle_status_response_lem :
    (r r' : EnvironmentRegistration) (m : Value) (profile : Profile) (o : Option Value)
    → handle_status_response r m profile ≡ ok (r', o)
    → ((environment_status_ready m ≡ ok true) × (r' ≡ record r { phase = ready }) × (o ≡ none))
      ⊎ ((n : ℕ) × (environment_status_ready m ≡ ok false)
          × (r.phase ≡ polling n)
          × (n < 200)
          × (r' ≡ record r { phase = polling (n + 1) })
          × (o ≡ some (environment_status_request r.status_request_id profile)))
unfolding handle_status_response
handle_status_response_lem r r' m profile o h = elim (Result-cases (environment_status_ready m)) [
  | inl (true, e) ↦ inl (e, ground arith, ground arith)
  | inl (false, e) ↦
      let (n, p, lt, same, asked) = poll_again_lem r.phase r profile (rw e at h) in
      inr (n, e, p, lt, same, asked)
  | inr (x, e) ↦ cc
]

polls_left_step :
    (r r' : EnvironmentRegistration) (m : Value) (profile : Profile) (w : Value)
    → handle_status_response r m profile ≡ ok (r', some w)
    → polls_left r'.phase + 1 ≤ polls_left r.phase
polls_left_step r r' m profile w h = elim (handle_status_response_lem r r' m profile (some w) h) [
  | inl (_, _, e) ↦ cc
  | inr (n, _, p, lt, same, _) ↦
      rw (p, ap (λ (x : EnvironmentRegistration). x.phase) same) (omega arith)
]

-- However many status answers a registration accepts one after another, they lead to no more
-- further status requests than its phase has polls left of the 200.
pub answers-le-polls_left :
    (profile : Profile) (r : EnvironmentRegistration) (ms requests : List Value)
    → answers profile r ms ≡ ok requests
    → length requests ≤ polls_left r.phase
unfolding answers
answers-le-polls_left profile r [] requests h = ground arith
answers-le-polls_left profile r (m ∷ ms) requests h =
    elim (Result-cases (handle_status_response r m profile)) [
      | inr (e, q) ↦ cc (rw (q, answers) at h)
      | inl ((r', none), q) ↦ ground (arith, rw (q, answers) at h)
      | inl ((r', some w), q) ↦
          let (more, rest, same) =
            >>=-eq-ok (answers profile r' ms) (λ x. ok (w ∷ x)) (rw (q, answers) at h) in
          let left = polls_left_step r r' m profile w q in
          let fewer = answers-le-polls_left profile r' ms more rest in
          ground (arith, left, fewer, same)
    ]

-- The environment reports a status other than ready.
abbrev pub IsNotReady : Value → Type 0
IsNotReady m = environment_status_ready m ≡ ok false

not_ready_lem :
    (r : EnvironmentRegistration) (m : Value) (profile : Profile) (n : ℕ)
    → IsNotReady m
    → r.phase ≡ polling n
    → handle_status_response r m profile ≡ (
        if ltb 200 (n + 1)
        then err environment_not_ready
        else ok (
          record r { phase = polling (n + 1) },
          some (environment_status_request r.status_request_id profile),
        ))
unfolding handle_status_response poll_again
not_ready_lem r m profile n h p = rw (h, p)

-- The wait is finite: with a counter of n, an environment that is still not ready after 201 - n
-- answers ends the connection with the error that it did not become ready.
pub answers_exhausted :
    (profile : Profile) (r : EnvironmentRegistration) (n : ℕ) (ms : List Value)
    → r.phase ≡ polling n
    → n ≤ 200
    → All IsNotReady ms
    → 200 - n < length ms
    → answers profile r ms ≡ err environment_not_ready
unfolding answers
answers_exhausted profile r n [] p b a h = elim h [ ]
answers_exhausted profile r n (m ∷ ms) p b (here, later) h = elim (Bool-cases (ltb 200 (n + 1))) [
  | inl full ↦ rw (not_ready_lem r m profile n here p, full, answers)
  | inr room ↦
      let r' = record r { phase = polling (n + 1) } in
      let ih = answers_exhausted profile r' (n + 1) ms refl (ground arith) later (ground arith) in
      rw (not_ready_lem r m profile n here p, room, answers) (rw ih)
]
