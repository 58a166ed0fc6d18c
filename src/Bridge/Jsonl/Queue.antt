-- ===== src/Bridge/Jsonl/Queue.antt =====
-- The queue of client lines along the steps of `relay_jsonl`.
use mathlib.Core.Path.{subst}
use codex_shuttle.Prelude.{
  ◌≡◌, refl, sym, ◌∙◌, inl, inr, String, true, List, Option, none, some, arith, ok, err, >>=-eq-ok,
  or_fail, Bool-cases,
}
use codex_shuttle.Json.{Value, Codec, get_str}
use codex_shuttle.Core.Profile.{Profile}
use codex_shuttle.Bridge.Errors.{invalid_client_json, invalid_server_json}
use codex_shuttle.Bridge.Registration.{
  EnvironmentRegistration, has_initialize_request, is_ready, is_initialize_response,
  begin_registration, is_add_response, begin_status_poll, is_status_response,
  handle_status_response,
}
use codex_shuttle.Bridge.Rewrite.{Method, method_of, rewrite_client_message}
use codex_shuttle.Bridge.Threads.{SessionScopeHandle}
use codex_shuttle.Bridge.Jsonl.{
  Relay, Event, client, server, start, remember, enqueue, client_line, request_with, after_status,
  note_started, filter_listed, answer_client, to_client_message, server_message, server_line, step,
  Reach, here, next,
}
use codex_shuttle.Bridge.Jsonl.Waiting.{
  total-append, lets_through, IsQueued, drain_lem, SameQueue, SameQueue-IsQueued,
  begin_registration_lem, begin_status_poll_lem, status_lem, rewrite_client_message_id,
}

module _ (codec : Codec) (profile : Profile) where
  pub remember-SameQueue :
      (m : Method) (v : Value) (s : Relay) → SameQueue s (remember codec profile m v s)
  unfolding remember
  remember-SameQueue Method.thread_start v s = record { lines = refl; bytes = refl; gate = λ h. h }
  remember-SameQueue Method.thread_list v s = record { lines = refl; bytes = refl; gate = λ h. h }
  remember-SameQueue _ v s = record { lines = refl; bytes = refl; gate = λ h. h }

  enqueue-IsQueued :
      (m : Method) (l : String) (s : Relay) {t : Relay}
      → IsQueued s
      → enqueue codec profile m l s ≡ ok t
      → IsQueued t
  unfolding enqueue has_initialize_request is_ready
  enqueue-IsQueued m l s q h = record {
    counted = ground (arith, q.counted, total-append s.pending_client_lines l);
    bounded = ground (arith, q.bounded);
    waiting = ground (arith, q.waiting);
  }

  note_started-SameQueue : (v : Value) (s : Relay) → SameQueue s (note_started codec profile v s)
  unfolding note_started
  note_started-SameQueue v s = record {
    lines = ground arith;
    bytes = ground arith;
    gate = ground arith;
  }

  filter_listed-SameQueue :
      (v : Value) (s : Relay) → SameQueue s (filter_listed codec profile v s).1
  unfolding filter_listed
  filter_listed-SameQueue v s = record {
    lines = ground arith;
    bytes = ground arith;
    gate = ground arith;
  }

  request-IsQueued :
      (r : EnvironmentRegistration) (v : Value) (s : Relay)
      → (lets_through r ≡ true → lets_through s.registration ≡ true)
      → IsQueued s
      → IsQueued (request_with codec profile (r, v) s)
  unfolding request_with
  request-IsQueued r v s g q =
      SameQueue-IsQueued (record { lines = refl; bytes = refl; gate = g }) q

  -- The request of a registration that now waits for its answer holds the same lines back.
  begun_queue :
      (s : Relay) (r : EnvironmentRegistration) (t : Relay)
      → SameQueue s t
      → (v : Value) → (lets_through r ≡ true → lets_through s.registration ≡ true)
      → SameQueue s (request_with codec profile (r, v) t)
  unfolding request_with
  begun_queue s r t k v g = record { lines = k.lines; bytes = k.bytes; gate = g }

  to_client-IsQueued :
      (v : Value) (s : Relay) {t : Relay}
      → IsQueued s
      → to_client_message codec profile v s ≡ ok t
      → IsQueued t
  unfolding to_client_message begin_registration answer_client
  to_client-IsQueued v s {t} q h =
      let noted = note_started codec profile v s in
      let (v', listed) = filter_listed codec profile v noted in
      let answered = answer_client codec profile v' listed in
      let same : SameQueue s answered = record {
        lines = (filter_listed-SameQueue v noted).lines ∙ (note_started-SameQueue v s).lines;
        bytes = (filter_listed-SameQueue v noted).bytes ∙ (note_started-SameQueue v s).bytes;
        gate = λ g. (note_started-SameQueue v s).gate ((filter_listed-SameQueue v noted).gate g);
      } in
      elim (Bool-cases (is_initialize_response s.registration v)) [
        | inr e ↦ subst IsQueued (cc (rw (e, to_client_message) at h)) (SameQueue-IsQueued same q)
        | inl e ↦
            let ((r, request), begun, sent) =
              >>=-eq-ok (begin_registration s.registration v' profile) _
                (rw (e, to_client_message) at h) in
            subst IsQueued (cc sent) (
              SameQueue-IsQueued {t = request_with codec profile (r, request) answered}
                (begun_queue s r answered same request
                  (begin_registration_lem s.registration r v' profile request begun))
                q)
      ]

  after_status-IsQueued :
      (r : EnvironmentRegistration) (o : Option Value) (v : Value) (s : Relay)
      → IsQueued s
      → handle_status_response s.registration v profile ≡ ok (r, o)
      → IsQueued (after_status codec profile (r, o) s)
  unfolding after_status
  after_status-IsQueued r (some w) v s q h =
      request-IsQueued r w s (status_lem s.registration r v profile w h) q
  after_status-IsQueued r none v s q h =
      subst IsQueued
        (sym (
          drain_lem s.pending_client_lines s.pending_client_bytes s.to_server
            (record s { registration = r }) q.counted))
        (record { counted = refl; bounded = omega arith; waiting = λ g. refl })

  server_message-IsQueued :
      (v : Value) (s : Relay) {t : Relay}
      → IsQueued s
      → server_message codec profile v s ≡ ok t
      → IsQueued t
  unfolding server_message
  server_message-IsQueued v s {t} q h = elim (Bool-cases (is_add_response s.registration v)) [
    | inl e ↦
        let ((r, w), polled, sent) =
          >>=-eq-ok (begin_status_poll s.registration v profile) _ (rw (e, server_message) at h) in
        subst IsQueued (cc sent)
          (request-IsQueued r w s (begin_status_poll_lem s.registration r v profile w polled) q)
    | inr e ↦ elim (Bool-cases (is_status_response s.registration v)) [
      | inl f ↦
          let ((r, o), now, sent) =
            >>=-eq-ok (handle_status_response s.registration v profile) _
              (rw f at (rw (e, server_message) at h)) in
          subst IsQueued (cc sent) (after_status-IsQueued r o v s q now)
      | inr f ↦ to_client-IsQueued v s q (rw f at (rw (e, server_message) at h))
    ]
  ]

  pub rewritten-IsQueued :
      (line : String) (s : Relay) {r : String × Option Value}
      → IsQueued s
      → rewrite_client_message codec profile s.registration.initialize_id line ≡ ok r
      → IsQueued (record s { registration = record s.registration { initialize_id = r.1 } })
  rewritten-IsQueued line s {r} q rewritten =
      let kept =
        rewrite_client_message_id codec profile s.registration.initialize_id line rewritten in
      SameQueue-IsQueued (record { lines = refl; bytes = refl; gate = ground arith }) q

  client_line-IsQueued :
      (line : String) (s : Relay) {t : Relay}
      → IsQueued s
      → client_line codec profile line s ≡ ok t
      → IsQueued t
  unfolding client_line
  client_line-IsQueued line s q h =
      let (r, rewritten, h₁) =
        >>=-eq-ok (rewrite_client_message codec profile s.registration.initialize_id line) _ h in
      let (request, _, h₂) = >>=-eq-ok (or_fail (codec.decode r.0) invalid_client_json) _ h₁ in
      let method = method_of (get_str "method" request) in
      let s' = record s { registration = record s.registration { initialize_id = r.1 } } in
      enqueue-IsQueued method r.0 (remember codec profile method request s')
        (SameQueue-IsQueued (remember-SameQueue method request s')
          (rewritten-IsQueued line s q rewritten))
        h₂

  -- One turn of the loop keeps the queue counted, bounded, and empty while lines are let through.
  pub step-IsQueued :
      (e : Event) (s : Relay) {t : Relay}
      → IsQueued s
      → step codec profile e s ≡ ok (some t)
      → IsQueued t
  unfolding step
  step-IsQueued (client (err x)) s q h = cc
  step-IsQueued (client (ok none)) s q h = cc
  step-IsQueued (client (ok (some line))) s q h =
      let (t, stepped, same) = >>=-eq-ok (client_line codec profile line s) _ h in
      subst IsQueued (cc same) (client_line-IsQueued line s q stepped)
  step-IsQueued (server (err x)) s q h = cc
  step-IsQueued (server (ok none)) s q h = cc
  step-IsQueued (server (ok (some line))) s q h =
      let (t, stepped, same) = >>=-eq-ok (server_line codec profile line s) _ h in
      let (message, _, h₁) =
        >>=-eq-ok (or_fail (codec.decode line) invalid_server_json) _
          (unfold server_line in stepped) in
      subst IsQueued (cc same) (server_message-IsQueued message s q h₁)

  pub start-IsQueued : (scope : SessionScopeHandle) → IsQueued (start profile scope)
  unfolding start
  start-IsQueued scope = record { counted = refl; bounded = omega arith; waiting = λ h. refl }

  reach-IsQueued :
      {s t : Relay} {es : List Event} → IsQueued s → Reach codec profile s es t → IsQueued t
  reach-IsQueued q here = q
  reach-IsQueued q (next {t = u} e r h) = step-IsQueued e u (reach-IsQueued q r) h

  -- In every state that the JSONL relay comes to, it holds at most 32 MiB of the client's lines,
  -- knows their size exactly, and holds none back while it lets lines through: before the client
  -- has asked to initialize, and once the environment is ready.
  pub Reach-IsQueued :
      (scope : SessionScopeHandle) (es : List Event) (t : Relay)
      → Reach codec profile (start profile scope) es t
      → IsQueued t
  Reach-IsQueued scope es t r = reach-IsQueued (start-IsQueued scope) r
