-- ===== src/Bridge/Jsonl/Order.antt =====
-- The order of the client's lines in `relay_jsonl`, while its queue fills and empties.
use mathlib.Core.List.{append-nil, append_assoc}
use codex_shuttle.Prelude.{
  ◌≡◌, refl, sym, ap, ◌∙◌, inl, inr, String, Bool, true, false, List, [], ◌∷◌, ◌++◌, Option, none,
  some, arith, if◌then◌else◌, map, ok, err, ◌>>=◌, >>=-eq-ok, or_fail, or_fail-eq-ok, Bool-cases,
}
use codex_shuttle.Json.{Value, Codec, get_str}
use codex_shuttle.Core.Profile.{Profile}
use codex_shuttle.Bridge.Errors.{Fallible, invalid_client_json, invalid_server_json}
use codex_shuttle.Bridge.Registration.{
  EnvironmentRegistration, has_initialize_request, is_ready, is_initialize_response,
  begin_registration, is_add_response, begin_status_poll, is_status_response,
  handle_status_response,
}
use codex_shuttle.Bridge.Rewrite.{
  Method, method_of, rewrite_client_message, rewrite_value, rewrite_method, with_object_field,
  rewrite_thread_start, rewrite_turn_start,
}
use codex_shuttle.Bridge.Threads.{SessionScopeHandle}
use codex_shuttle.Bridge.Jsonl.{
  Sent, relayed, own, Relay, Event, client, server, start, send, is_initialize, remember, must_wait,
  enqueue, client_line, request_with, after_status, note_started, filter_listed, answer_client,
  to_client_message, server_message, server_line, step, flush, Reach, here, next,
}
use codex_shuttle.Bridge.Jsonl.Waiting.{IsQueued, drain_lem, SameQueue-IsQueued}
use codex_shuttle.Bridge.Jsonl.Queue.{remember-SameQueue, Reach-IsQueued, rewritten-IsQueued}

-- The client's lines among what the App Server was sent.
abbrev pub texts : List Sent → List String
texts [] = []
texts (relayed l ∷ ls) = l ∷ texts ls
texts (own l ∷ ls) = texts ls

texts-append : (xs ys : List Sent) → texts (xs ++ ys) ≡ texts xs ++ texts ys
texts-append [] ys = refl
texts-append (relayed l ∷ xs) ys = ap (◌∷◌ l) (texts-append xs ys)
texts-append (own l ∷ xs) ys = texts-append xs ys

texts-relayed : (ls : List String) → texts (map relayed ls) ≡ ls
texts-relayed [] = refl
texts-relayed (l ∷ ls) = ap (◌∷◌ l) (texts-relayed ls)

some_relay : (u t : Relay) → ◌≡◌ {A = Fallible (Option Relay)} (ok (some u)) (ok (some t)) → t ≡ u
some_relay u t h = cc

last_step :
    (codec : Codec) (profile : Profile) {s t : Relay} {e : Event} {es : List Event}
    → Reach codec profile s (e ∷ es) t
    → (u : Relay) × Reach codec profile s es u × (step codec profile e u ≡ ok (some t))
last_step codec profile (next {t = u} e r h) = (u, r, h)

module _ (codec : Codec) where
  abbrev pub is_initialize_value : Option Value → Bool
  is_initialize_value none = false
  is_initialize_value (some v) = is_initialize (method_of (get_str "method" v))

  -- The lines other than initialize requests, which never wait.
  abbrev pub others : List String → List String
  others [] = []
  others (l ∷ ls) = if is_initialize_value (codec.decode l) then others ls else l ∷ others ls

  pub others-append : (xs ys : List String) → others (xs ++ ys) ≡ others xs ++ others ys
  others-append [] ys = refl
  others-append (x ∷ xs) ys = ground (arith, others-append xs ys)

  -- What a relay has sent on or still holds, oldest first.
  abbrev pub stream : Relay → List String
  stream s = texts s.to_server ++ s.pending_client_lines

  sent_stream :
      (s : Relay) (l : String)
      → stream (send (relayed l) s) ≡ texts s.to_server ++ (l ∷ s.pending_client_lines)
  unfolding send
  sent_stream s l =
      rw texts-append (append_assoc (texts s.to_server) (l ∷ []) s.pending_client_lines)

  own_stream : (s : Relay) (l : String) → stream (send (own l) s) ≡ stream s
  unfolding send
  own_stream s l = rw texts-append (rw append-nil)

  initialize_anywhere :
      (xs ys : List String) (l : String)
      → is_initialize_value (codec.decode l) ≡ true
      → others (xs ++ (l ∷ ys)) ≡ others (xs ++ ys) ++ others (l ∷ [])
  initialize_anywhere xs ys l h =
      ground (arith, others-append xs (l ∷ ys), others-append xs ys, append-nil (others (xs ++ ys)))

  waiting_stream :
      (profile : Profile) (m : Method) (l : String) (s : Relay) {t : Relay}
      → must_wait codec profile m s ≡ true
      → enqueue codec profile m l s ≡ ok t
      → stream t ≡ stream s ++ l ∷ []
  unfolding enqueue
  waiting_stream profile m l s {t} w h =
      ground (arith, append_assoc (texts s.to_server) s.pending_client_lines (l ∷ []))

  direct_stream :
      (profile : Profile) (m : Method) (l : String) (s : Relay) {t : Relay}
      → must_wait codec profile m s ≡ false
      → enqueue codec profile m l s ≡ ok t
      → stream t ≡ texts s.to_server ++ (l ∷ s.pending_client_lines)
  unfolding enqueue
  direct_stream profile m l s {t} w h =
      let sent : send (relayed l) s ≡ t = cc (rw w at h) in rw (← sent) (sent_stream s l)

  -- What does not wait is an initialize request, or finds the queue empty.
  not_waiting :
      (profile : Profile) (m : Method) (s : Relay)
      → IsQueued s
      → must_wait codec profile m s ≡ false
      → is_initialize m ≡ false
      → s.pending_client_lines ≡ []
  unfolding must_wait has_initialize_request is_ready
  not_waiting profile m s q w i = q.waiting (ground arith)

  enqueue_stream :
      (profile : Profile) (l : String) (v : Value) (s : Relay) {t : Relay}
      → IsQueued s
      → codec.decode l ≡ some v
      → enqueue codec profile (method_of (get_str "method" v)) l s ≡ ok t
      → others (stream t) ≡ others (stream s) ++ others (l ∷ [])
  enqueue_stream profile l v s {t} q d h =
      let m = method_of (get_str "method" v) in
      elim (Bool-cases (must_wait codec profile m s)) [
        | inl wait ↦
            ap others (waiting_stream profile m l s wait h) ∙ others-append (stream s) (l ∷ [])
        | inr now ↦ elim (Bool-cases (is_initialize m)) [
          | inl i ↦
              ap others (direct_stream profile m l s now h)
              ∙ initialize_anywhere (texts s.to_server) s.pending_client_lines l
                  (ap is_initialize_value d ∙ i)
          | inr i ↦
              let clear = not_waiting profile m s q now i in
              let stays : texts s.to_server ++ (l ∷ s.pending_client_lines) ≡ stream s ++ l ∷ [] =
                ground (arith, clear, append-nil (texts s.to_server)) in
              ap others (direct_stream profile m l s now h ∙ stays)
              ∙ others-append (stream s) (l ∷ [])
        ]
      ]

  remember_stream :
      (profile : Profile) (m : Method) (v : Value) (s : Relay)
      → stream (remember codec profile m v s) ≡ stream s
  unfolding remember
  remember_stream profile Method.thread_start v s = refl
  remember_stream profile Method.thread_list v s = refl
  remember_stream profile _ v s = refl

  flush_stream :
      (s : Relay) (r : EnvironmentRegistration)
      → IsQueued s
      → stream (flush (record s { registration = r })) ≡ stream s
  unfolding flush
  flush_stream s r q =
      ap stream (
        drain_lem s.pending_client_lines s.pending_client_bytes s.to_server
          (record s { registration = r }) q.counted)
      ∙ append-nil (texts (s.to_server ++ map relayed s.pending_client_lines))
      ∙ texts-append s.to_server (map relayed s.pending_client_lines)
      ∙ ap (◌++◌ (texts s.to_server)) (texts-relayed s.pending_client_lines)

  request_stream :
      (profile : Profile) (r : EnvironmentRegistration) (v : Value) (s : Relay)
      → stream (request_with codec profile (r, v) s) ≡ stream s
  unfolding request_with
  request_stream profile r v s = own_stream (record s { registration = r }) (codec.encode v)

  after_status_stream :
      (profile : Profile) (r : EnvironmentRegistration) (o : Option Value) (s : Relay)
      → IsQueued s
      → stream (after_status codec profile (r, o) s) ≡ stream s
  unfolding after_status
  after_status_stream profile r (some v) s q = request_stream profile r v s
  after_status_stream profile r none s q = flush_stream s r q

  answered_stream :
      (profile : Profile) (v : Value) (s : Relay)
      → stream (
          answer_client codec profile
            (filter_listed codec profile v (note_started codec profile v s)).0
            (filter_listed codec profile v (note_started codec profile v s)).1)
        ≡ stream s
  unfolding answer_client filter_listed note_started
  answered_stream profile v s = ground arith

  ok_stream : (u t : Relay) → ◌≡◌ {A = Fallible Relay} (ok u) (ok t) → stream t ≡ stream u
  ok_stream u t h = ap stream {x = t} {y = u} (cc)

  to_client_stream :
      (profile : Profile) (v : Value) (s : Relay) {t : Relay}
      → to_client_message codec profile v s ≡ ok t
      → stream t ≡ stream s
  unfolding to_client_message
  to_client_stream profile v s {t} h =
      let (v', s') = filter_listed codec profile v (note_started codec profile v s) in
      elim (Bool-cases (is_initialize_response s.registration v)) [
        | inr e ↦ ok_stream _ t (rw (e, to_client_message) at h) ∙ answered_stream profile v s
        | inl e ↦
            let ((r, w), begun, sent) =
              >>=-eq-ok (begin_registration s.registration v' profile) _
                (rw (e, to_client_message) at h) in
            ok_stream _ t sent
            ∙ request_stream profile r w (answer_client codec profile v' s')
            ∙ answered_stream profile v s
      ]

  server_stream :
      (profile : Profile) (v : Value) (s : Relay) {t : Relay}
      → IsQueued s
      → server_message codec profile v s ≡ ok t
      → stream t ≡ stream s
  unfolding server_message
  server_stream profile v s {t} q h = elim (Bool-cases (is_add_response s.registration v)) [
    | inl e ↦
        let ((r, w), polled, sent) =
          >>=-eq-ok (begin_status_poll s.registration v profile) _ (rw (e, server_message) at h) in
        ok_stream _ t sent ∙ request_stream profile r w s
    | inr e ↦ elim (Bool-cases (is_status_response s.registration v)) [
      | inl f ↦
          let ((r, o), now, sent) =
            >>=-eq-ok (handle_status_response s.registration v profile) _
              (rw f at (rw (e, server_message) at h)) in
          ok_stream _ t sent ∙ after_status_stream profile r o s q
      | inr f ↦ to_client_stream profile v s (rw f at (rw (e, server_message) at h))
    ]
  ]

  -- The text of a rewritten line does not depend on the initialize id seen so far.
  rewrite_method_text :
      (m : Method) (profile : Profile) (id other : Option Value) (v v' : Value) {id' : Option Value}
      → rewrite_method m profile id v ≡ ok (v', id')
      → (o : Option Value) × (rewrite_method m profile other v ≡ ok (v', o))
  unfolding rewrite_method
  rewrite_method_text Method.initialize profile id other v v' {id'} h = (id', h)
  rewrite_method_text Method.thread_start profile id other v v' h =
      let (w, changed, same) =
        >>=-eq-ok (with_object_field "params" (rewrite_thread_start profile) v) _ h in
      (other, rw changed (ground arith))
  rewrite_method_text Method.turn_start profile id other v v' h =
      let (w, changed, same) =
        >>=-eq-ok (with_object_field "params" (rewrite_turn_start profile) v) _ h in
      (other, rw changed (ground arith))
  rewrite_method_text _ profile id other v v' h = (other, ground arith)

  -- The text that a client's line is passed on as, if the bridge accepts it.
  abbrev pub passed_text : Fallible (String × Option Value) → List String
  passed_text (ok (text, _)) = text ∷ []
  passed_text (err e) = []

  abbrev pub passed : Profile → Event → List String
  passed profile (client (ok (some line))) =
      passed_text (rewrite_client_message codec profile none line)
  passed profile _ = []

  -- The texts of all the client's lines, oldest first; the events stand newest first.
  abbrev pub received : Profile → List Event → List String
  received profile [] = []
  received profile (e ∷ es) = received profile es ++ passed profile e

  passed_lem :
      (profile : Profile) (id : Option Value) (line : String) {r : String × Option Value}
      → rewrite_client_message codec profile id line ≡ ok r
      → passed profile (client (ok (some line))) ≡ r.0 ∷ []
  unfolding rewrite_client_message rewrite_value
  passed_lem profile id line {r} h =
      let (v, decoded, h₁) = >>=-eq-ok (or_fail (codec.decode line) invalid_client_json) _ h in
      let ((v', id'), rewritten, h₂) = >>=-eq-ok (rewrite_value profile id v) _ h₁ in
      let (o, again) =
        rewrite_method_text (method_of (get_str "method" v)) profile id none v v' rewritten in
      ap passed_text (
        ap
          (λ (x : Fallible Value).
            x >>= λ w. (rewrite_value profile none w >>= λ p. ok (codec.encode p.0, p.1)))
          decoded
        ∙ ap (λ (x : Fallible (Value × Option Value)). x >>= λ p. ok (codec.encode p.0, p.1)) again)
      ∙ ground arith

  client_stream :
      (profile : Profile) (line : String) (s : Relay) {t : Relay}
      → IsQueued s
      → client_line codec profile line s ≡ ok t
      → others (stream t) ≡ others (stream s) ++ others (passed profile (client (ok (some line))))
  unfolding client_line
  client_stream profile line s {t} q h =
      let (r, rewritten, h₁) =
        >>=-eq-ok (rewrite_client_message codec profile s.registration.initialize_id line) _ h in
      let (request, decoded, h₂) =
        >>=-eq-ok (or_fail (codec.decode r.0) invalid_client_json) _ h₁ in
      let method = method_of (get_str "method" request) in
      let s₁ = record s { registration = record s.registration { initialize_id = r.1 } } in
      let s₂ = remember codec profile method request s₁ in
      let q₁ = rewritten-IsQueued codec profile line s q rewritten in
      let q₂ = SameQueue-IsQueued (remember-SameQueue codec profile method request s₁) q₁ in
      enqueue_stream profile r.0 request s₂ q₂
        (or_fail-eq-ok (codec.decode r.0) invalid_client_json decoded) h₂
      ∙ ap (λ x. others x ++ others (r.0 ∷ [])) (remember_stream profile method request s₁)
      ∙ ap (λ x. others (stream s) ++ others x)
          (sym (passed_lem profile s.registration.initialize_id line rewritten))

  pub step_stream :
      (profile : Profile) (e : Event) (s : Relay) {t : Relay}
      → IsQueued s
      → step codec profile e s ≡ ok (some t)
      → others (stream t) ≡ others (stream s) ++ others (passed profile e)
  unfolding step
  step_stream profile (client (err x)) s q h = cc
  step_stream profile (client (ok none)) s q h = cc
  step_stream profile (client (ok (some line))) s {t} q h =
      let (u, stepped, same) = >>=-eq-ok (client_line codec profile line s) _ h in
      ap (λ x. others (stream x)) (some_relay u t same) ∙ client_stream profile line s q stepped
  step_stream profile (server (err x)) s q h = cc
  step_stream profile (server (ok none)) s q h = cc
  step_stream profile (server (ok (some line))) s {t} q h =
      let (u, stepped, same) = >>=-eq-ok (server_line codec profile line s) _ h in
      let (message, _, h₁) =
        >>=-eq-ok (or_fail (codec.decode line) invalid_server_json) _
          (unfold server_line in stepped) in
      ap (λ x. others (stream x)) (some_relay u t same)
      ∙ ap others (server_stream profile message s q h₁)
      ∙ sym (append-nil (others (stream s)))

  pub start_stream :
      (profile : Profile) (scope : SessionScopeHandle) → stream (start profile scope) ≡ []
  unfolding start
  start_stream profile scope = refl

  here_stream :
      (profile : Profile) (scope : SessionScopeHandle) {t : Relay}
      → Reach codec profile (start profile scope) [] t
      → others (stream t) ≡ []
  here_stream profile scope here = ap others (start_stream profile scope)

  -- The client's lines other than initialize requests that the App Server was sent, followed by those
  -- still waiting, are exactly the lines that the relay's reads of the client returned, each as it was
  -- rewritten and in this order.
  pub Reach-stream :
      (profile : Profile) (scope : SessionScopeHandle) (es : List Event) (t : Relay)
      → Reach codec profile (start profile scope) es t
      → others (stream t) ≡ others (received profile es)
  Reach-stream profile scope [] t r = here_stream profile scope r
  Reach-stream profile scope (e ∷ es) t r =
      let (u, before, h) = last_step codec profile r in
      step_stream profile e u (Reach-IsQueued codec profile scope es u before) h
      ∙ ap (λ x. x ++ others (passed profile e)) (Reach-stream profile scope es u before)
      ∙ sym (others-append (received profile es) (passed profile e))
