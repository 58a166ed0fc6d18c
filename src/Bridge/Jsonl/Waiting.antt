-- ===== src/Bridge/Jsonl/Waiting.antt =====
-- The queue of the JSONL relay as an invariant, and the operations that leave it alone.
use mathlib.Core.List.{append-nil, append_assoc}
use codex_shuttle.Prelude.{
  ℕ, ◌+◌, ◌-◌, ◌≤◌, ◌≡◌, ◌∙◌, String, Bool, true, not, ◌&&◌, List, [], ◌∷◌, ◌++◌, Option, some,
  arith, map, ok, >>=-eq-ok, or_fail,
}
use codex_shuttle.Json.{Value, Codec, get, get_str}
use codex_shuttle.Core.Profile.{Profile}
use codex_shuttle.Bridge.Errors.{initialize_without_id, invalid_client_json}
use codex_shuttle.Bridge.Registration.{
  EnvironmentRegistration, is_some, begin_registration, begin_status_poll, handle_status_response,
  phase_is_ready,
}
use codex_shuttle.Bridge.Registration.Polling.{handle_status_response_lem}
use codex_shuttle.Bridge.Rewrite.{
  Method, method_of, rewrite_client_message, rewrite_value, rewrite_method, with_object_field,
  allow_experimental, rewrite_thread_start, rewrite_turn_start,
}
use codex_shuttle.Bridge.Jsonl.{
  max_pending_client_bytes, Sent, relayed, Relay, text_len, drain, flush,
}

abbrev pub total : List String → ℕ
total [] = 0
total (l ∷ ls) = text_len l + total ls

pub total-append : (ls : List String) (l : String) → total (ls ++ l ∷ []) ≡ total ls + text_len l
total-append [] l = omega arith
total-append (x ∷ ls) l = omega (arith, total-append ls l)

-- The client's lines go straight to the App Server: it has not asked to initialize, or the
-- environment is ready.
abbrev pub lets_through : EnvironmentRegistration → Bool
lets_through r = not (is_some r.initialize_id && not (phase_is_ready r.phase))

pub record IsQueued (s : Relay) : Type 0 where
  pub counted : s.pending_client_bytes ≡ total s.pending_client_lines
  pub bounded : s.pending_client_bytes ≤ max_pending_client_bytes
  pub waiting : lets_through s.registration ≡ true → s.pending_client_lines ≡ []

-- All that `flush` does to the relay.
pub drain_lem :
    (ls : List String) (n : ℕ) (sent : List Sent) (s : Relay)
    → n ≡ total ls
    → drain ls n sent s ≡ record s {
      pending_client_lines = [];
      pending_client_bytes = 0;
      to_server = sent ++ map relayed ls;
    }
unfolding drain
drain_lem [] n sent s h = ground (arith, append-nil sent)
drain_lem (l ∷ ls) n sent s h =
    drain_lem ls (n - text_len l) (sent ++ relayed l ∷ []) s (omega arith)
    ∙ ground (arith, append_assoc sent (relayed l ∷ []) (map relayed ls))

pub flush_lem :
    (s : Relay)
    → IsQueued s
    → flush s ≡ record s {
      pending_client_lines = [];
      pending_client_bytes = 0;
      to_server = s.to_server ++ map relayed s.pending_client_lines;
    }
unfolding flush
flush_lem s q = drain_lem s.pending_client_lines s.pending_client_bytes s.to_server s q.counted

-- The queue stays as it was, and no line is let through that was held back before.
pub record SameQueue (s t : Relay) : Type 0 where
  pub lines : t.pending_client_lines ≡ s.pending_client_lines
  pub bytes : t.pending_client_bytes ≡ s.pending_client_bytes
  pub gate : lets_through t.registration ≡ true → lets_through s.registration ≡ true

pub SameQueue-IsQueued : {s t : Relay} → SameQueue s t → IsQueued s → IsQueued t
SameQueue-IsQueued {s} {t} k q = record {
  counted = ground (arith, k.lines, k.bytes, q.counted);
  bounded = ground (arith, k.bytes, q.bounded);
  waiting = λ h. k.lines ∙ q.waiting (k.gate h);
}

pub begin_registration_lem :
    (r r' : EnvironmentRegistration) (v : Value) (profile : Profile) (request : Value)
    → begin_registration r v profile ≡ ok (r', request)
    → lets_through r' ≡ true
    → lets_through r ≡ true
unfolding begin_registration is_some phase_is_ready
begin_registration_lem r r' v profile request h g = ground arith

pub begin_status_poll_lem :
    (r r' : EnvironmentRegistration) (v : Value) (profile : Profile) (request : Value)
    → begin_status_poll r v profile ≡ ok (r', request)
    → lets_through r' ≡ true
    → lets_through r ≡ true
unfolding begin_status_poll is_some phase_is_ready
begin_status_poll_lem r r' v profile request h g = ground arith

pub status_lem :
    (r r' : EnvironmentRegistration) (v : Value) (profile : Profile) (request : Value)
    → handle_status_response r v profile ≡ ok (r', some request)
    → lets_through r' ≡ true
    → lets_through r ≡ true
unfolding is_some phase_is_ready
status_lem r r' v profile request h g =
    ground (arith, handle_status_response_lem r r' v profile (some request) h)

rewrite_method_id :
    (m : Method) (profile : Profile) (id id' : Option Value) (v v' : Value)
    → rewrite_method m profile id v ≡ ok (v', id')
    → is_some id ≡ true
    → is_some id' ≡ true
unfolding rewrite_method is_some
rewrite_method_id Method.initialize profile id id' v v' h k =
    let (new_id, _, h₁) = >>=-eq-ok (or_fail (get "id" v) initialize_without_id) _ h in
    let (w, _, h₂) = >>=-eq-ok (with_object_field "params" allow_experimental v) _ h₁ in
    ground arith
rewrite_method_id Method.thread_start profile id id' v v' h k =
    let (w, _, h₁) = >>=-eq-ok (with_object_field "params" (rewrite_thread_start profile) v) _ h in
    ground arith
rewrite_method_id Method.turn_start profile id id' v v' h k =
    let (w, _, h₁) = >>=-eq-ok (with_object_field "params" (rewrite_turn_start profile) v) _ h in
    ground arith
rewrite_method_id _ profile id id' v v' h k = ground arith

-- An initialize id is never forgotten.
pub rewrite_client_message_id :
    (codec : Codec) (profile : Profile) (id : Option Value) (line : String)
    {r : String × Option Value}
    → rewrite_client_message codec profile id line ≡ ok r
    → is_some id ≡ true
    → is_some r.1 ≡ true
unfolding rewrite_client_message
rewrite_client_message_id codec profile id line {r} h k =
    let (v, _, h₁) = >>=-eq-ok (or_fail (codec.decode line) invalid_client_json) _ h in
    let ((v', id'), rewritten, h₂) = >>=-eq-ok (rewrite_value profile id v) _ h₁ in
    let kept =
      rewrite_method_id (method_of (get_str "method" v)) profile id id' v v'
        (unfold rewrite_value in rewritten) k in
    ground (arith, kept)
