-- ===== src/Bridge/Websocket/Kept.antt =====
-- The arms of `relay_websocket` for the two servers and the timer, and the variables that they share
-- with the client's.
use mathlib.Core.List.{append-nil}
use codex_shuttle.Prelude.{
  ℕ, suc, ◌≡◌, refl, ap, ◌∙◌, inl, inr, String, Bool, true, false, List, [], ◌∷◌, ◌++◌, Option,
  none, some, arith, ok, >>=-eq-ok, or_fail, Bool-cases,
}
use codex_shuttle.Prelude.Assoc.{lookup}
use codex_shuttle.Json.{Value, Codec}
use codex_shuttle.Core.Profile.{Profile}
use codex_shuttle.Bridge.Errors.{
  Fallible, metadata_disappeared, host_disconnected, invalid_host_json,
}
use codex_shuttle.Bridge.Registration.{
  EnvironmentRegistration, is_initialize_response, begin_registration, has_error, has_str_id,
}
use codex_shuttle.Bridge.Host.{host_initialize_id}
use codex_shuttle.Bridge.Metadata.{
  Decoders, PendingThreadMetadata, Pending, pending_instruction_read, record_instruction_read,
  send_local_thread_start, instruction_source_paths,
}
use codex_shuttle.Bridge.Websocket.Session.{
  Frame, Sent, relayed, own, started, Session, send_server, send_client,
}
use codex_shuttle.Bridge.Websocket.Server.{
  request_with, thread_started, initialized, pass_on, other_response, server_response, merge_if,
}
use codex_shuttle.Bridge.Websocket.Host.{
  sent_of, start_locally, request_reads, read_or_start, shadow_answer, start_if, read_answer,
  host_passed, read_or_pass, host_answer, host_message, host_line, is_drained, start_all, timer,
  expired,
}

-- The client's frames among what was sent.
abbrev pub client_frames : List Sent → List Frame
client_frames [] = []
client_frames (relayed f ∷ xs) = f ∷ client_frames xs
client_frames (own _ ∷ xs) = client_frames xs
client_frames (started _ ∷ xs) = client_frames xs

pub client_frames-append :
    (xs ys : List Sent) → client_frames (xs ++ ys) ≡ client_frames xs ++ client_frames ys
client_frames-append [] ys = refl
client_frames-append (relayed f ∷ xs) ys = ap (◌∷◌ f) (client_frames-append xs ys)
client_frames-append (own _ ∷ xs) ys = client_frames-append xs ys
client_frames-append (started _ ∷ xs) ys = client_frames-append xs ys

pub record Kept (s t : Session) : Type 0 where
  pub queue : t.pending_client_messages ≡ s.pending_client_messages
  pub bytes : t.pending_client_bytes ≡ s.pending_client_bytes
  pub frames : client_frames t.to_server ≡ client_frames s.to_server
  pub id : t.registration.initialize_id ≡ s.registration.initialize_id

pub Kept-refl : (s : Session) → Kept s s
Kept-refl s = record { queue = refl; bytes = refl; frames = refl; id = refl }

pub Kept-trans : {s t u : Session} → Kept s t → Kept t u → Kept s u
Kept-trans h k = record {
  queue = k.queue ∙ h.queue;
  bytes = k.bytes ∙ h.bytes;
  frames = k.frames ∙ h.frames;
  id = k.id ∙ h.id;
}

pub ok-Kept : (s u t : Session) → ◌≡◌ {A = Fallible Session} (ok u) (ok t) → Kept s u → Kept s t
ok-Kept s u t h k = record {
  queue = ground (arith, k.queue);
  bytes = ground (arith, k.bytes);
  frames = ground (arith, k.frames);
  id = ground (arith, k.id);
}

pub started-Kept : (s : Session) (line : Option String) → Kept s (sent_of line s)
unfolding sent_of send_server
started-Kept s none = Kept-refl s
started-Kept s (some line) = record {
  queue = refl;
  bytes = refl;
  frames = client_frames-append s.to_server (started line ∷ []) ∙ append-nil _;
  id = refl;
}

module _ (codec : Codec) (profile : Profile) where
  start_locally-Kept :
      (k : String) (s : Session) {t : Session} → start_locally codec profile k s ≡ ok t → Kept s t
  unfolding start_locally
  start_locally-Kept k s {t} h =
      let ((line, pending), _, h₁) =
        >>=-eq-ok (send_local_thread_start codec k s.pending_thread_metadata) _ h in
      let s' = record s { pending_thread_metadata = pending } in
      ok-Kept s (sent_of line s') t h₁ (
        Kept-trans {t = s'} (record { queue = refl; bytes = refl; frames = refl; id = refl })
          (started-Kept s' line))

  request_reads-Kept :
      (k : String) (n : ℕ) (paths : List String) (s : Session) {t : Session}
      → request_reads codec profile k n paths s ≡ ok t
      → Kept s t
  unfolding request_reads
  request_reads-Kept k n [] s {t} h = ok-Kept s s t h (Kept-refl s)
  request_reads-Kept k n (path ∷ paths) s {t} h =
      let (pending, _, h₁) =
        >>=-eq-ok (pending_instruction_read k _ path s.pending_thread_metadata) _ h in
      Kept-trans (record { queue = refl; bytes = refl; frames = refl; id = refl })
        (request_reads-Kept k (suc n) paths _ h₁)

  read_or_start-Kept :
      (k : String) (paths : List String) (s : Session) {t : Session}
      → read_or_start codec profile k paths s ≡ ok t
      → Kept s t
  unfolding read_or_start
  read_or_start-Kept k [] s h = start_locally-Kept k s h
  read_or_start-Kept k (p ∷ ps) s h = request_reads-Kept k 0 (p ∷ ps) s h

  table-Kept :
      (s : Session) (pending : Pending) → Kept s (record s { pending_thread_metadata = pending })
  table-Kept s pending = record { queue = refl; bytes = refl; frames = refl; id = refl }

  shadow_answer-Kept :
      (k : String) (e : PendingThreadMetadata) (v : Value) (s : Session) {t : Session}
      → shadow_answer codec profile k e v s ≡ ok t
      → Kept s t
  unfolding shadow_answer
  shadow_answer-Kept k e v s {t} h = elim (Bool-cases (has_error v)) [
    | inl failed ↦ start_locally-Kept k s (rw (failed, shadow_answer) at h)
    | inr fine ↦ elim (Bool-cases e.local_sent) [
      | inl before ↦ ok-Kept s _ t (rw before at (rw (fine, shadow_answer) at h)) (table-Kept s _)
      | inr not_yet ↦ Kept-trans (table-Kept s _) (
          read_or_start-Kept k (instruction_source_paths v) _
            (rw not_yet at (rw (fine, shadow_answer) at h)))
    ]
  ]

  start_if-Kept :
      (b : Bool) (k : String) (s : Session) {t : Session}
      → start_if codec profile b k s ≡ ok t
      → Kept s t
  unfolding start_if
  start_if-Kept true k s h = start_locally-Kept k s h
  start_if-Kept false k s {t} h = ok-Kept s s t h (Kept-refl s)

  read_answer-Kept :
      (d : Decoders) (k r : String) (v : Value) (s : Session) {t : Session}
      → read_answer codec profile d k r v s ≡ ok t
      → Kept s t
  unfolding read_answer
  read_answer-Kept d k r v s h =
      let (pending, _, h₁) =
        >>=-eq-ok (record_instruction_read d k r v s.pending_thread_metadata) _ h in
      Kept-trans (table-Kept s pending) (start_if-Kept (is_drained (lookup k pending)) k _ h₁)

  host_passed-Kept :
      (line : String) (v : Value) (s : Session) → Kept s (host_passed codec profile line v s)
  unfolding host_passed
  host_passed-Kept line v s = record {
    queue = ground arith;
    bytes = ground arith;
    frames = ground arith;
    id = ground arith;
  }

  read_or_pass-Kept :
      (d : Decoders) (r k : Option String) (line : String) (v : Value) (s : Session) {t : Session}
      → read_or_pass codec profile d r k line v s ≡ ok t
      → Kept s t
  unfolding read_or_pass
  read_or_pass-Kept d (some r) (some k) line v s h = read_answer-Kept d k r v s h
  read_or_pass-Kept d (some r) none line v s {t} h = ok-Kept s _ t h (host_passed-Kept line v s)
  read_or_pass-Kept d none k line v s {t} h = ok-Kept s _ t h (host_passed-Kept line v s)

  host_answer-Kept :
      (d : Decoders) (o : Option (String × PendingThreadMetadata)) (line : String) (v : Value)
      (s : Session) {t : Session}
      → host_answer codec profile d o line v s ≡ ok t
      → Kept s t
  unfolding host_answer
  host_answer-Kept d (some (k, e)) line v s h = shadow_answer-Kept k e v s h
  host_answer-Kept d none line v s h = read_or_pass-Kept d _ _ line v s h

  host_message-Kept :
      (d : Decoders) (line : String) (v : Value) (s : Session) {t : Session}
      → host_message codec profile d line v s ≡ ok t
      → Kept s t
  unfolding host_message
  host_message-Kept d line v s {t} h =
      elim (Bool-cases (has_str_id v (host_initialize_id profile))) [
        | inl e ↦ elim (Bool-cases (has_error v)) [
          | inl f ↦ cc (rw f at (rw (e, host_message) at h))
          | inr f ↦
              ok-Kept s (record s { host_initialize_response = some v }) t
                (rw f at (rw (e, host_message) at h))
                (record { queue = refl; bytes = refl; frames = refl; id = refl })
        ]
        | inr e ↦ host_answer-Kept d _ line v s (rw (e, host_message) at h)
      ]

  pub host_line-Kept :
      (d : Decoders) (line : Fallible (Option String)) (s : Session) {t : Session}
      → host_line codec profile d line s ≡ ok t
      → Kept s t
  unfolding host_line
  host_line-Kept d line s h =
      let (o, _, h₁) = >>=-eq-ok line _ h in
      let (l, _, h₂) = >>=-eq-ok (or_fail o host_disconnected) _ h₁ in
      let (v, _, h₃) = >>=-eq-ok (or_fail (codec.decode l) invalid_host_json) _ h₂ in
      host_message-Kept d l v s h₃

  start_all-Kept :
      (ks : List String) (s : Session) {t : Session}
      → start_all codec profile ks s ≡ ok t
      → Kept s t
  unfolding start_all
  start_all-Kept [] s {t} h = ok-Kept s s t h (Kept-refl s)
  start_all-Kept (k ∷ ks) s h =
      let (s', e, h₁) = >>=-eq-ok (start_locally codec profile k s) _ h in
      Kept-trans (start_locally-Kept k s e) (start_all-Kept ks s' h₁)

  pub timer-Kept :
      (now : ℕ) (s : Session) {t : Session} → timer codec profile now s ≡ ok t → Kept s t
  unfolding timer
  timer-Kept now s h = start_all-Kept (expired codec profile now s.pending_thread_metadata) s h

module _ (codec : Codec) (profile : Profile) (now : ℕ) where
  pub request-Kept :
      (r : EnvironmentRegistration) (v : Value) (s : Session)
      → r.initialize_id ≡ s.registration.initialize_id
      → Kept s (request_with codec profile now (r, v) s)
  unfolding request_with send_server
  request-Kept r v s e = record {
    queue = refl;
    bytes = refl;
    frames = client_frames-append s.to_server (own (codec.encode v) ∷ []) ∙ append-nil _;
    id = e;
  }

  thread_started-Kept :
      (k : String) (v : Value) (s : Session) {t : Session}
      → thread_started codec profile now k v s ≡ ok t
      → Kept s t
  unfolding thread_started
  thread_started-Kept k v s {t} h =
      let (entry, _, h₁) =
        >>=-eq-ok (or_fail (lookup k s.pending_thread_metadata) metadata_disappeared) _ h in
      let (merged, _, h₂) = >>=-eq-ok (merge_if v entry.host_response) _ h₁ in
      ok-Kept s _ t h₂
        (unfold send_client in record { queue = refl; bytes = refl; frames = refl; id = refl })

  begun_id :
      (r : EnvironmentRegistration) (v : Value) (b : EnvironmentRegistration × Value)
      → begin_registration r v profile ≡ ok b
      → b.0.initialize_id ≡ r.initialize_id
  unfolding begin_registration
  begun_id r v b h = ground arith

  initialized-Kept :
      (v : Value) (s : Session) {t : Session} → initialized codec profile now v s ≡ ok t → Kept s t
  unfolding initialized
  initialized-Kept v s {t} h =
      let (begun, e, h₁) = >>=-eq-ok (begin_registration s.registration v profile) _ h in
      ok-Kept s
        (request_with codec profile now begun (record s { local_initialize_response = some v })) t
        h₁
        (Kept-trans {t = record s { local_initialize_response = some v }}
          (record { queue = refl; bytes = refl; frames = refl; id = refl })
          (request-Kept begun.0 begun.1 _ (begun_id s.registration v begun e)))

  pass_on-Kept : (f : Frame) (v : Value) (s : Session) → Kept s (pass_on codec profile now f v s)
  unfolding pass_on
  pass_on-Kept f v s = record {
    queue = ground arith;
    bytes = ground arith;
    frames = ground arith;
    id = ground arith;
  }

  other_response-Kept :
      (o : Option String) (f : Frame) (v : Value) (s : Session) {t : Session}
      → other_response codec profile now o f v s ≡ ok t
      → Kept s t
  unfolding other_response
  other_response-Kept (some k) f v s h = thread_started-Kept k v s h
  other_response-Kept none f v s {t} h = ok-Kept s _ t h (pass_on-Kept f v s)

  pub server_response-Kept :
      (f : Frame) (v : Value) (s : Session) {t : Session}
      → server_response codec profile now f v s ≡ ok t
      → Kept s t
  unfolding server_response
  server_response-Kept f v s h = elim (Bool-cases (is_initialize_response s.registration v)) [
    | inl e ↦ initialized-Kept v s (rw (e, server_response) at h)
    | inr e ↦ other_response-Kept _ f v s (rw (e, server_response) at h)
  ]
