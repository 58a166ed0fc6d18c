-- ===== src/Bridge/Tests/Messages.antt =====
-- Registration, rewriting, thread ownership, metadata and the host's messages at concrete inputs.
use codex_shuttle.Prelude.{
  ℕ, ◌≡◌, refl, ◌≢◌, inl, inr, String, Bool, true, false, not, ◌||◌, List, [], ◌∷◌, Option, none,
  some, arith, err, ◌==◌, string_eq, if◌then◌else◌, Bool-cases,
}
use codex_shuttle.Prelude.Text.{bytes}
use codex_shuttle.Prelude.Assoc.{lookup, insert, remove}
use codex_shuttle.Json.{
  Value, Fields, null, string, number, array, object, nil, item, end, field, pos_int, get, get_str,
  get_field, insert_field, as_str, pointer, then_str, as_object,
}
use codex_shuttle.Core.Names.{validate_thread_id, is_ascii_control}
use codex_shuttle.Core.Routing.{contains}
use codex_shuttle.Core.Scope.{SessionScope}
use codex_shuttle.Bridge.Errors.{environment_not_ready}
use codex_shuttle.Bridge.Registration.{
  EnvironmentRegistration, polling, environment_status_ready, has_error, is_some,
}
use codex_shuttle.Bridge.Registration.Polling.{answers, answers_exhausted}
use codex_shuttle.Bridge.Rewrite.{
  rewrite_value, method_of, rewrite_method, with_object_field, environments, object_field_in,
  entry_object,
}
use codex_shuttle.Bridge.Rewrite.Environments.{IsOwnEnvironment, rewrite_value-IsOwnEnvironment}
use codex_shuttle.Bridge.Threads.{
  SessionScopeHandle, filter_thread_list_response, record_owned_thread, started_thread,
}
use codex_shuttle.Bridge.Threads.Ownership.{
  ShowsOwned, is_list_field, filter_thread_list_response-ShowsOwned, record_owned_thread_lem,
}
use codex_shuttle.Bridge.Host.{object_in, copy_fields, put_object}
use codex_shuttle.Bridge.Host.Isolation.{first_of_two}
use codex_shuttle.Bridge.Metadata.{
  Decoders, PendingThreadMetadata, record_instruction_read, send_local_thread_start,
  merge_thread_metadata, merge_thread, merge_thread_into, contents_total, record_encoded,
  accept_instruction, with_instructions, instruction_texts,
}
use codex_shuttle.Bridge.Metadata.Limits.{
  KeepsBytes, IsWithinLimits, record_instruction_read-IsWithinLimits,
}
use codex_shuttle.Bridge.Metadata.Instructions.{Sends, send_local_thread_start_once}
use codex_shuttle.Bridge.Metadata.Merge.{host_fields, thread_field, merge_thread_metadata_lem}
use codex_shuttle.Mux.Channel.{bytes_eq, bytes_eq_iff}
use codex_shuttle.Bridge.Tests.{profile, initialize_request, codec}

-- A status answer, and a registration that has asked so often.
abbrev status_answer : String → Value
status_answer status = object (field "result" (object (field "status" (string status) end)) end)

abbrev polled : ℕ → EnvironmentRegistration
polled n = record {
  initialize_id = some (number (pos_int 1));
  phase = polling n;
  add_request_id = "add";
  status_request_id = "status";
}

answers_exhausted_example :
    answers profile (polled 200) (status_answer "starting" ∷ []) ≡ err environment_not_ready
unfolding environment_status_ready has_error is_some get get_field pointer then_str as_str
answers_exhausted_example =
    answers_exhausted profile (polled 200) 200 (status_answer "starting" ∷ []) refl (omega arith)
      (refl, tt) (omega arith)

-- A thread/start request, with an environment of the client's own.
abbrev start_request : Value → Value
start_request environments' = object (
    field "method" (string "thread/start") (
      field "params" (object (field "cwd" (string "/w") (field "environments" environments' end)))
        end))

rewrite_value-IsOwnEnvironment_example :
    IsOwnEnvironment profile (start_request (environments profile "/w"))
    × ((k : String)
        → k ≢ "params"
        → get k (start_request (environments profile "/w")) ≡ get k (start_request null))
    × (◌≡◌ {A = Option Value} none none)
unfolding rewrite_value rewrite_method method_of with_object_field object_field_in entry_object
    get_str get_field as_object insert_field
rewrite_value-IsOwnEnvironment_example =
    rewrite_value-IsOwnEnvironment profile none none (start_request null)
      (start_request (environments profile "/w")) tt refl

-- A scope with one thread, and a list response that shows two.
abbrev scope : SessionScope
scope = record { schema_version = 1; enabled = true; thread_ids = "a" ∷ [] }

abbrev handle : SessionScopeHandle
handle = record { poisoned = false; scope = some scope }

abbrev thread : String → Value
thread id = object (field "id" (string id) end)

abbrev listed : Fields
listed = field "data" (array (item (thread "a") (item (thread "b") nil))) end

filter_thread_list_response-ShowsOwned_example :
    (result' : Fields) × (filter_thread_list_response handle
        (object (field "result" (object listed) end))
      ≡ object (insert_field "result" (object result') (field "result" (object listed) end)))
    × ShowsOwned ("a" ∷ []) listed result'
    × ((k : String) → is_list_field k ≡ false → get_field k result' ≡ get_field k listed)
unfolding get_field
filter_thread_list_response-ShowsOwned_example =
    filter_thread_list_response-ShowsOwned handle scope (field "result" (object listed) end) listed
      refl refl refl refl

abbrev started_b : Value
started_b = object (field "result" (object (field "thread" (thread "b") end)) end)

record_owned_thread_lem_example :
    (scope' : SessionScope) × (record_owned_thread handle started_b
      ≡ (record handle { scope = some scope' }, not (contains ("a" ∷ []) "b")))
    × (scope'.enabled ≡ true)
    × ((s : String)
        → contains scope'.thread_ids s ≡ (◌==◌ {A = String} "b" s || contains ("a" ∷ []) s))
unfolding started_thread has_error is_some get get_field pointer then_str as_str validate_thread_id
    is_ascii_control bytes
record_owned_thread_lem_example =
    record_owned_thread_lem handle scope started_b "b" refl refl refl refl refl

abbrev read_answer : Value
read_answer = object (field "id" (string "cxs/gpu/thread-metadata/1") end)

abbrev own_answer : Value
own_answer = object (field "id" (number (pos_int 7)) end)

-- One text that base64 and UTF-8 decode.
abbrev hi_or_none : Bool → Option String
hi_or_none true = some "hi"
hi_or_none false = none

abbrev decoders : Decoders
decoders = record {
  base64 = λ s. if s == "aGk=" then some (bytes "hi") else none;
  from_utf8 = λ bs. hi_or_none (bytes_eq (bytes "hi") bs);
}

hi_keeps :
    (bs : List ℕ) (s : String) (b : Bool)
    → bytes_eq (bytes "hi") bs ≡ b
    → hi_or_none b ≡ some s
    → bytes s ≡ bs
hi_keeps bs s true e h =
    let decoded : "hi" ≡ s = ground (arith, h) in
    rw (← decoded) ((bytes_eq_iff (bytes "hi") bs).0 e)
hi_keeps bs s false e h = cc

decoders-KeepsBytes : KeepsBytes decoders
decoders-KeepsBytes bs s h = hi_keeps bs s (bytes_eq (bytes "hi") bs) refl h

abbrev waiting : PendingThreadMetadata
waiting = record {
  client_id = number (pos_int 3);
  local_request = initialize_request;
  host_response = none;
  pending_instruction_reads = ("r", "/AGENTS.md") ∷ [];
  instruction_paths = "/AGENTS.md" ∷ [];
  instruction_contents = [];
  started_at = 0;
  local_sent = false;
}

abbrev read_hi : Value
read_hi = object (field "result" (object (field "dataBase64" (string "aGk=") end)) end)

abbrev read_in : PendingThreadMetadata
read_in = record waiting {
  pending_instruction_reads = [];
  instruction_contents = ("/AGENTS.md", "hi") ∷ [];
}

waiting-IsWithinLimits :
    (k : String) (e : PendingThreadMetadata)
    → lookup k (("m", waiting) ∷ []) ≡ some e
    → IsWithinLimits e.instruction_contents
unfolding lookup contents_total
waiting-IsWithinLimits k e h = elim (Bool-cases (◌==◌ {A = String} "m" k)) [
  | inl own ↦
      let same : waiting ≡ e = cc (rw own at h) in
      rw (← same) (record { sum = omega arith; each = tt })
  | inr other ↦ cc (rw other at h)
]

record_instruction_read-IsWithinLimits_example : IsWithinLimits (("/AGENTS.md", "hi") ∷ [])
unfolding record_instruction_read record_encoded accept_instruction lookup insert remove
    contents_total get get_field pointer then_str as_str bytes bytes_eq
record_instruction_read-IsWithinLimits_example =
    record_instruction_read-IsWithinLimits decoders decoders-KeepsBytes "m" "r" read_hi
      (("m", waiting) ∷ []) (("m", read_in) ∷ []) waiting-IsWithinLimits refl "m" read_in refl

abbrev sent_now : PendingThreadMetadata
sent_now = record read_in { local_sent = true }

send_local_thread_start_once_example :
    (entry : PendingThreadMetadata) × (lookup "m" (("m", read_in) ∷ []) ≡ some entry)
    × (lookup "m" (("m", sent_now) ∷ []) ≡ some (record entry { local_sent = true }))
    × Sends codec entry (some "initialize")
    × ((k : String) → k ≢ "m" → lookup k (("m", sent_now) ∷ []) ≡ lookup k (("m", read_in) ∷ []))
unfolding send_local_thread_start with_instructions instruction_texts lookup insert get_str
    get_field as_str then_str get with_object_field as_object insert_field
send_local_thread_start_once_example =
    send_local_thread_start_once codec "m" (("m", read_in) ∷ []) (("m", sent_now) ∷ [])
      (some "initialize") refl

abbrev answered : String → Value
answered cwd = object (field "result" (object (field "cwd" (string cwd) end)) end)

abbrev at_dir : String → Fields
at_dir cwd = field "cwd" (string cwd) end

merge_thread_metadata_lem_example :
    ((k : String) → k ≢ "result" → get k (answered "/remote") ≡ get k (answered "/local"))
    × ((result' : Fields) × (get "result" (answered "/remote") ≡ some (object result'))
        × ((k : String)
            → k ≢ "thread"
            → get_field k result' ≡ (
                if contains host_fields k
                then first_of_two (get_field k (at_dir "/remote")) (get_field k (at_dir "/local"))
                else get_field k (at_dir "/local")))
        × ((k : String)
            → contains ("cwd" ∷ "gitInfo" ∷ []) k ≡ false
            → thread_field k (get_field "thread" result')
              ≡ thread_field k (get_field "thread" (at_dir "/local"))))
unfolding merge_thread_metadata merge_thread merge_thread_into has_error is_some object_in
    copy_fields put_object get get_field insert_field as_object
merge_thread_metadata_lem_example =
    merge_thread_metadata_lem (answered "/local") (answered "/remote") (answered "/remote")
      (at_dir "/local") (at_dir "/remote") refl refl refl refl refl
