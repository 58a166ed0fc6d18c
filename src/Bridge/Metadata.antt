-- ===== src/Bridge/Metadata.antt =====
-- crates/cxs-bridge/src/lib.rs: the remote project metadata of a thread/start request, gathered
-- before the request goes to the local App Server. Base64 and the UTF-8 check are not in the
-- repository: they are the record `Decoders`.
pub mod Instructions
pub mod Limits
pub mod Merge
use Prim.Native.String.{◌++◌}
use codex_shuttle.Prelude.{
  ℕ, suc, zero, ◌+◌, ◌-◌, ◌*◌, min, String, Bool, true, false, not, ◌&&◌, ◌||◌, List, [], ◌∷◌,
  Option, none, some, ◌==◌, nat_eq, string_eq, ltb, if◌then◌else◌, length, take, ok, err, ◌>>=◌,
  ◌>>◌, guard, or_fail,
}
use codex_shuttle.Prelude.Text.{bytes, decimal}
use codex_shuttle.Prelude.Assoc.{lookup, insert, remove}
use codex_shuttle.Json.{
  Value, Items, Fields, boolean, string, array, object, nil, item, get, get_str, then_str, pointer,
  as_str, get_field, insert_field, remove_field, set_index, Codec,
}
use codex_shuttle.Core.Profile.{Profile}
use codex_shuttle.Bridge.Errors.{
  Fallible, invalid_client_json, thread_start_without_id, not_an_object, metadata_disappeared,
  read_disappeared, instruction_not_base64, instruction_too_large, instructions_too_large,
  instruction_not_utf8, local_result_missing, host_result_missing,
}
use codex_shuttle.Bridge.Registration.{has_error}
use codex_shuttle.Bridge.Rewrite.{with_object_field}
use codex_shuttle.Bridge.Host.{internal_prefix, object_in, copy_fields, put_object}

abbrev pub max_instruction_sources : ℕ
max_instruction_sources = 32

abbrev pub max_instruction_source_bytes : ℕ
max_instruction_source_bytes = 256 * 1024

abbrev pub max_instruction_total_bytes : ℕ
max_instruction_total_bytes = 512 * 1024

pub record Decoders : Type 0 where
  pub base64 : String → Option (List ℕ)
  pub from_utf8 : List ℕ → Option String

pub record PendingThreadMetadata : Type 0 where
  pub client_id : Value
  pub local_request : Value
  pub host_response : Option Value
  pub pending_instruction_reads : List (String × String)
  pub instruction_paths : List String
  pub instruction_contents : List (String × String)
  pub started_at : ℕ
  pub local_sent : Bool

abbrev pub Pending : Type 0
Pending = List (String × PendingThreadMetadata)

-- `.filter_map(Value::as_str)`
unfoldable pub strings_of : Items → List String
strings_of nil = []
strings_of (item v vs) = elim (as_str v) [ none ↦ strings_of vs | some s ↦ s ∷ strings_of vs ]

unfoldable pub items_of : Option Value → Items
items_of (some (array xs)) = xs
items_of _ = nil

unfoldable pub instruction_source_paths : Value → List String
unfolding strings_of items_of
instruction_source_paths host_response =
    take max_instruction_sources
      (strings_of (items_of (pointer ("result" ∷ "instructionSources" ∷ []) host_response)))

unfoldable pub pending_instruction_read : String → String → String → Pending → Fallible Pending
pending_instruction_read metadata_id read_id path pending = do
  entry ← or_fail (lookup metadata_id pending) metadata_disappeared
  let reads = insert read_id path entry.pending_instruction_reads
  ok (insert metadata_id (record entry { pending_instruction_reads = reads }) pending)

unfoldable pub content_len : String → ℕ
content_len s = length (bytes s)

-- `values().map(String::len).sum()`
unfoldable pub contents_total : List (String × String) → ℕ
contents_total [] = 0
contents_total ((path, contents) ∷ rest) = content_len contents + contents_total rest

-- The contents of one source, if it and the sum with those before keep the limits.
unfoldable pub accept_instruction :
    Decoders → String → String → PendingThreadMetadata → Fallible PendingThreadMetadata
accept_instruction d path encoded entry = do
  bs ← or_fail (d.base64 encoded) (instruction_not_base64 path)
  guard (not (ltb max_instruction_source_bytes (length bs))) (instruction_too_large path)
  guard
      (not
        (ltb max_instruction_total_bytes (contents_total entry.instruction_contents + length bs)))
      (instructions_too_large path)
  contents ← or_fail (d.from_utf8 bs) (instruction_not_utf8 path)
  ok (record entry { instruction_contents = insert path contents entry.instruction_contents })

unfoldable pub record_encoded :
    Decoders → String → Option String → PendingThreadMetadata → Fallible PendingThreadMetadata
unfolding accept_instruction
record_encoded d path none entry = ok entry
record_encoded d path (some encoded) entry = accept_instruction d path encoded entry

unfoldable pub record_instruction_read :
    Decoders → String → String → Value → Pending → Fallible Pending
unfolding record_encoded
record_instruction_read d metadata_id read_id response pending = do
  entry ← or_fail (lookup metadata_id pending) metadata_disappeared
  path ← or_fail (lookup read_id entry.pending_instruction_reads) read_disappeared
  let reads = remove read_id entry.pending_instruction_reads
  let encoded = then_str (pointer ("result" ∷ "dataBase64" ∷ []) response)
  entry' ← record_encoded d path encoded (record entry { pending_instruction_reads = reads })
  ok (insert metadata_id entry' pending)

-- `format!` of each path whose contents are there.
unfoldable pub instruction_texts : List String → List (String × String) → List String
instruction_texts [] contents = []
instruction_texts (path ∷ paths) contents = elim (lookup path contents) [
  | none ↦ instruction_texts paths contents
  | some text ↦ ("Instructions from " ++ path ++ ":\n" ++ text) ∷ instruction_texts paths contents
]

-- `[String]::join("\n\n")`
unfoldable pub join_blank : List String → String
join_blank [] = ""
join_blank (s ∷ []) = s
join_blank (s ∷ t ∷ ts) = s ++ "\n\n" ++ join_blank (t ∷ ts)

unfoldable pub or_empty : Option String → String
or_empty none = ""
or_empty (some s) = s

unfoldable pub add_instructions : List String → Fields → Fallible Fields
unfolding or_empty join_blank
add_instructions instructions params =
    let existing = or_empty (then_str (get_field "developerInstructions" params)) in
    let remote = join_blank instructions in
    let combined = if existing == "" then remote else existing ++ "\n\n" ++ remote in
    ok (insert_field "developerInstructions" (string combined) params)

unfoldable pub with_instructions : List String → Value → Fallible Value
unfolding add_instructions
with_instructions [] request = ok request
with_instructions (i ∷ is) request = with_object_field "params" (add_instructions (i ∷ is)) request

-- What is sent to the local App Server, if anything, and the table afterwards.
unfoldable pub send_local_thread_start :
    Codec → String → Pending → Fallible (Option String × Pending)
unfolding with_instructions instruction_texts
send_local_thread_start codec metadata_id pending = do
  entry ← or_fail (lookup metadata_id pending) metadata_disappeared
  if entry.local_sent then ok (none, pending) else do
    let texts = instruction_texts entry.instruction_paths entry.instruction_contents
    request ← with_instructions texts entry.local_request
    ok (
      some (codec.encode request),
      insert metadata_id (record entry { local_sent = true }) pending,
    )

unfoldable pub metadata_id_of : Profile → ℕ → String
metadata_id_of profile n = internal_prefix profile ++ decimal n

unfoldable pub make_ephemeral : Fields → Fallible Fields
make_ephemeral params =
    ok (insert_field "ephemeral" (boolean true) (remove_field "environments" params))

unfoldable pub u64_max : ℕ
u64_max = 18446744073709551615

-- The `ThreadStart` arm of `forward_client_message`: the shadow request to the host, the sequence
-- number and the table afterwards.
unfoldable pub forward_thread_start :
    Codec → Profile → ℕ → String → ℕ → Pending → Fallible (String × ℕ × Pending)
unfolding metadata_id_of make_ephemeral
forward_thread_start codec profile now message sequence pending = do
  request ← or_fail (codec.decode message) invalid_client_json
  client_id ← or_fail (get "id" request) thread_start_without_id
  let sequence' = min (sequence + 1) u64_max
  let metadata_id = metadata_id_of profile sequence'
  shadow ← or_fail (set_index "id" (string metadata_id) request) not_an_object
  shadow' ← with_object_field "params" make_ephemeral shadow
  let entry : PendingThreadMetadata = record {
    client_id = client_id;
    local_request = request;
    host_response = none;
    pending_instruction_reads = [];
    instruction_paths = [];
    instruction_contents = [];
    started_at = now;
    local_sent = false;
  }
  ok (codec.encode shadow', sequence', insert metadata_id entry pending)

unfoldable pub merge_thread_into : Option Value → Fields → Fields → Fields
merge_thread_into (some (object local_thread)) host_thread result =
    insert_field "thread" (object (copy_fields ("cwd" ∷ "gitInfo" ∷ []) host_thread local_thread))
      result
merge_thread_into _ host_thread result = result

unfoldable pub merge_thread : Option Fields → Fields → Fields
unfolding merge_thread_into
merge_thread none result = result
merge_thread (some host_thread) result =
    merge_thread_into (get_field "thread" result) host_thread result

unfoldable pub merge_thread_metadata : Value → Value → Fallible Value
unfolding merge_thread
merge_thread_metadata from_local from_host =
    if has_error from_local || has_error from_host then ok from_local else do
      local_result ← or_fail (object_in "result" from_local) local_result_missing
      host_result ← or_fail (object_in "result" from_host) host_result_missing
      let merged =
          copy_fields ("cwd" ∷ "runtimeWorkspaceRoots" ∷ "instructionSources" ∷ []) host_result
            local_result
      ok (
          put_object "result" (merge_thread (object_in "thread" (object host_result)) merged)
            from_local)
