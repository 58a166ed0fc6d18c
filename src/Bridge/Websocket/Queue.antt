-- ===== src/Bridge/Websocket/Queue.antt =====
-- crates/cxs-bridge/src/lib.rs: what the loop of `relay_websocket` keeps to: the size of the client's
-- queue, and the route of each message in it and of each that was relayed.
use codex_shuttle.Prelude.{
  ℕ, ◌+◌, ◌-◌, ◌≤◌, ◌≡◌, refl, ◌∙◌, inl, inr, String, Bool, true, false, List, [], ◌∷◌, ◌++◌,
  Option, none, some, arith, ◌==◌, ok, >>=-eq-ok, string_eq, or_fail, or_fail-eq-ok, Bool-cases,
  All, All-append,
}
use codex_shuttle.Json.{Value, Codec, get_str, set_index, string}
use codex_shuttle.Core.Profile.{Profile}
use codex_shuttle.Core.Routing.{is_host_request, contains}
use codex_shuttle.Bridge.Errors.{invalid_client_json, not_an_object}
use codex_shuttle.Bridge.Registration.{is_some, has_initialize_request}
use codex_shuttle.Bridge.Rewrite.{Method, method_of, rewrite_client_message}
use codex_shuttle.Bridge.Jsonl.{max_pending_client_bytes, is_initialize}
use codex_shuttle.Bridge.Jsonl.Waiting.{rewrite_client_message_id}
use codex_shuttle.Bridge.Host.{
  RequestRoute, local, host, thread_start, request_route, host_initialize_id,
}
use codex_shuttle.Bridge.Metadata.{forward_thread_start}
use codex_shuttle.Bridge.Websocket.Session.{
  Frame, text, opaque, relayed, Session, text_len, send_server, send_host, forward_client_message,
  drain, flush,
}
use codex_shuttle.Bridge.Websocket.Client.{
  remember, initialize_both, must_wait, enqueue, dispatch, client_text, client_frame,
}
use codex_shuttle.Bridge.Websocket.Kept.{client_frames, client_frames-append, Kept, Kept-refl}

-- The route that `request_route` gives to a client's message.
unfoldable pub routed : Codec → String → RequestRoute
routed codec message = elim (codec.decode message) [
  | none ↦ local
  | some v ↦ request_route (get_str "method" v)
]

abbrev pub IsLocal : Codec → Frame → Type 0
IsLocal codec (text message) = routed codec message ≡ local
IsLocal codec (opaque _) = Unit

abbrev pub IsRoutedEntry : Codec → String × RequestRoute → Type 0
IsRoutedEntry codec (message, route) = routed codec message ≡ route

abbrev pub total : List (String × RequestRoute) → ℕ
total [] = 0
total ((m, _) ∷ ms) = text_len m + total ms

total-append :
    (ms : List (String × RequestRoute)) (m : String) (r : RequestRoute)
    → total (ms ++ (m, r) ∷ []) ≡ total ms + text_len m
total-append [] m r = omega arith
total-append ((x, _) ∷ ms) m r = omega (arith, total-append ms m r)

-- The queue's size is counted and bounded, each of its messages stands with its own route, nothing
-- waits before the client has asked to initialize, and what the client had sent to the local App
-- Server was for it.
pub record IsSound (codec : Codec) (s : Session) : Type 0 where
  pub counted : s.pending_client_bytes ≡ total s.pending_client_messages
  pub bounded : s.pending_client_bytes ≤ max_pending_client_bytes
  pub queued : All (IsRoutedEntry codec) s.pending_client_messages
  pub unasked : is_some s.registration.initialize_id ≡ false → s.pending_client_messages ≡ []
  pub frames : All (IsLocal codec) (client_frames s.to_server)

pub Kept-IsSound : (codec : Codec) {s t : Session} → Kept s t → IsSound codec s → IsSound codec t
Kept-IsSound codec {s} {t} k q = record {
  counted = ground (arith, k.bytes, k.queue, q.counted);
  bounded = ground (arith, k.bytes, q.bounded);
  queued = rw k.queue q.queued;
  unasked = λ h. k.queue ∙ q.unasked (rw k.id at h);
  frames = rw k.frames q.frames;
}

module _ (codec : Codec) (profile : Profile) (now : ℕ) where
  relayed_frames :
      (f : Frame) (s : Session)
      → IsLocal codec f
      → All (IsLocal codec) (client_frames s.to_server)
      → All (IsLocal codec) (client_frames (send_server (relayed f) s).to_server)
  unfolding send_server
  relayed_frames f s l fs =
      rw (client_frames-append s.to_server (relayed f ∷ []))
        (All-append (IsLocal codec) (client_frames s.to_server) (f ∷ []) fs (l, tt))

  -- A message goes where its route says; the rest of the session is as it was.
  record Forwarded (s t : Session) : Type 0 where
    bytes : t.pending_client_bytes ≡ s.pending_client_bytes
    messages : t.pending_client_messages ≡ s.pending_client_messages
    id : t.registration.initialize_id ≡ s.registration.initialize_id
    frames :
        All (IsLocal codec) (client_frames s.to_server)
        → All (IsLocal codec) (client_frames t.to_server)

  forward_lem :
      (m : String) (r : RequestRoute) (s : Session) {t : Session}
      → routed codec m ≡ r
      → forward_client_message codec profile now m r s ≡ ok t
      → Forwarded s t
  unfolding forward_client_message send_host
  forward_lem m local s {t} e h = record {
    bytes = unfold send_server in ground arith;
    messages = unfold send_server in ground arith;
    id = unfold send_server in ground arith;
    frames = λ fs. ground (arith, relayed_frames (text m) s e fs);
  }
  forward_lem m host s {t} e h = record {
    bytes = ground arith;
    messages = ground arith;
    id = ground arith;
    frames = ground arith;
  }
  forward_lem m thread_start s {t} e h =
      let ((shadow, sequence, pending), _, h₁) =
        >>=-eq-ok
          (forward_thread_start codec profile now m s.metadata_sequence s.pending_thread_metadata) _
          h in
      record {
        bytes = ground arith;
        messages = ground arith;
        id = ground arith;
        frames = ground arith;
      }

  -- Once the queue is drained nothing waits, and its size is 0.
  pub record Drained (t : Session) : Type 0 where
    pub bytes : t.pending_client_bytes ≡ 0
    pub messages : t.pending_client_messages ≡ []
    pub frames : All (IsLocal codec) (client_frames t.to_server)

  drain_lem :
      (ms : List (String × RequestRoute)) (s : Session) {t : Session}
      → s.pending_client_bytes ≡ total ms
      → All (IsRoutedEntry codec) ms
      → All (IsLocal codec) (client_frames s.to_server)
      → drain codec profile now ms s ≡ ok t
      → Drained t
  unfolding drain
  drain_lem [] s {t} e qs fs h = record {
    bytes = ground (arith, e);
    messages = ground arith;
    frames = ground (arith, fs);
  }
  drain_lem ((m, r) ∷ ms) s {t} e (q, qs) fs h =
      let popped = record s {
        pending_client_messages = ms;
        pending_client_bytes = s.pending_client_bytes - text_len m;
      } in
      let (s', e', h₁) = >>=-eq-ok (forward_client_message codec profile now m r popped) _ h in
      let k = forward_lem m r popped q e' in
      drain_lem ms s' (ground (arith, k.bytes, e)) qs (k.frames fs) h₁

  pub Drained-IsSound : (t : Session) → Drained t → IsSound codec t
  Drained-IsSound t k = record {
    counted = ground (arith, k.bytes, k.messages);
    bounded = ground (arith, k.bytes);
    queued = rw k.messages tt;
    unasked = λ h. k.messages;
    frames = k.frames;
  }

  pub flush_lem :
      (s : Session) {t : Session} → IsSound codec s → flush codec profile now s ≡ ok t → Drained t
  unfolding flush
  flush_lem s q h = drain_lem s.pending_client_messages s q.counted q.queued q.frames h

  enqueue_lem :
      (m : String) (r : RequestRoute) (s : Session) {t : Session}
      → IsSound codec s
      → must_wait codec profile now s ≡ true
      → routed codec m ≡ r
      → enqueue codec profile now m r s ≡ ok t
      → IsSound codec t
  unfolding enqueue must_wait has_initialize_request
  enqueue_lem m r s {t} q w e h = record {
    counted = ground (arith, q.counted, total-append s.pending_client_messages m r);
    bounded = ground (arith, q.bounded);
    queued = ground (
      arith,
      All-append (IsRoutedEntry codec) s.pending_client_messages ((m, r) ∷ []) q.queued (e, tt),
    );
    unasked = ground arith;
    frames = ground (arith, q.frames);
  }

  Forwarded-IsSound : (s t : Session) → IsSound codec s → Forwarded s t → IsSound codec t
  Forwarded-IsSound s t q k = record {
    counted = ground (arith, k.bytes, k.messages, q.counted);
    bounded = ground (arith, k.bytes, q.bounded);
    queued = rw k.messages q.queued;
    unasked = λ h. k.messages ∙ q.unasked (rw k.id at h);
    frames = k.frames q.frames;
  }

  initialize_both_lem :
      (m : String) (v : Value) (s : Session) {t : Session}
      → IsSound codec s
      → routed codec m ≡ local
      → initialize_both codec profile now m v s ≡ ok t
      → IsSound codec t
  unfolding initialize_both send_host
  initialize_both_lem m v s {t} q e h =
      let (w, _, h₁) =
        >>=-eq-ok (or_fail (set_index "id" (string (host_initialize_id profile)) v) not_an_object) _
          h in
      let told = record s { to_host = s.to_host ++ codec.encode w ∷ [] } in
      Forwarded-IsSound s t q (record {
        bytes = unfold send_server in ground arith;
        messages = unfold send_server in ground arith;
        id = unfold send_server in ground arith;
        frames = λ fs. ground (arith, relayed_frames (text m) told e fs);
      })

  dispatch_lem :
      (b : Bool) (m : String) (v : Value) (r : RequestRoute) (s : Session) {t : Session}
      → IsSound codec s
      → routed codec m ≡ r
      → (b ≡ true → r ≡ local)
      → dispatch codec profile now b m v r s ≡ ok t
      → IsSound codec t
  unfolding dispatch
  dispatch_lem true m v r s q e l h = initialize_both_lem m v s q (e ∙ l refl) h
  dispatch_lem false m v r s q e l h = elim (Bool-cases (must_wait codec profile now s)) [
    | inl w ↦ enqueue_lem m r s q w e (rw w at h)
    | inr w ↦ Forwarded-IsSound s _ q (forward_lem m r s e (rw w at h))
  ]

  initialize_name : (m : String) → is_initialize (method_of (some m)) ≡ true → m ≡ "initialize"
  unfolding is_initialize method_of
  initialize_name m h = elim (Bool-cases (m == "initialize")) [
    | inl e ↦ (string_eq.equal_iff m "initialize").0 e
    | inr e ↦ ground (arith, e, h)
  ]

  initialize_route :
      (name : Option String) → is_initialize (method_of name) ≡ true → request_route name ≡ local
  unfolding request_route is_host_request contains
  initialize_route none h = refl
  initialize_route (some m) h = rw (initialize_name m h) refl

  remember_lem : (m : Method) (v : Value) (s : Session) → Kept s (remember codec profile now m v s)
  unfolding remember
  remember_lem Method.thread_list v s = record {
    queue = refl;
    bytes = refl;
    frames = refl;
    id = refl;
  }
  remember_lem _ v s = Kept-refl s

  routed_lem :
      (m : String) (v : Value)
      → codec.decode m ≡ some v
      → routed codec m ≡ request_route (get_str "method" v)
  unfolding routed
  routed_lem m v h = rw (h, routed) refl

  some_id :
      (a b : Option Value)
      → (is_some a ≡ true → is_some b ≡ true)
      → is_some b ≡ false
      → is_some a ≡ false
  some_id a b h k = ground (arith, h)

  client_text_lem :
      (line : String) (s : Session) {t : Session}
      → IsSound codec s
      → client_text codec profile now line s ≡ ok t
      → IsSound codec t
  unfolding client_text
  client_text_lem line s {t} q h =
      let ((m, id), e, h₁) =
        >>=-eq-ok (rewrite_client_message codec profile s.registration.initialize_id line) _ h in
      let (v, e', h₂) = >>=-eq-ok (or_fail (codec.decode m) invalid_client_json) _ h₁ in
      let name = get_str "method" v in
      let asked : Session = record s {
        registration = record s.registration { initialize_id = id };
      } in
      let q' : IsSound codec asked = record {
        counted = q.counted;
        bounded = q.bounded;
        queued = q.queued;
        unasked = λ none_now. q.unasked (
            some_id s.registration.initialize_id id
              (rewrite_client_message_id codec profile s.registration.initialize_id line e)
              none_now);
        frames = q.frames;
      } in
      dispatch_lem (is_initialize (method_of name)) m v (request_route name) _
        (Kept-IsSound codec (remember_lem (method_of name) v asked) q')
        (routed_lem m v (or_fail-eq-ok (codec.decode m) invalid_client_json e'))
        (initialize_route name) h₂

  pub client_frame_lem :
      (f : Frame) (s : Session) {t : Session}
      → IsSound codec s
      → client_frame codec profile now f s ≡ ok t
      → IsSound codec t
  unfolding client_frame
  client_frame_lem (text line) s q h = client_text_lem line s q h
  client_frame_lem (opaque n) s {t} q h = Forwarded-IsSound s t q (record {
    bytes = unfold send_server in ground arith;
    messages = unfold send_server in ground arith;
    id = unfold send_server in ground arith;
    frames = λ fs. ground (arith, relayed_frames (opaque n) s tt fs);
  })
