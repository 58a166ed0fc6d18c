-- ===== src/Sessions/Rollout.antt =====
-- crates/cxs-sessions/src/lib.rs: `inspect_and_rewrite`.
pub mod Rewritten
use codex_shuttle.Prelude.{
  ℕ, ◌+◌, String, Bool, true, false, not, ◌&&◌, ◌||◌, List, [], ◌∷◌, ◌++◌, Option, none, some, ◌==◌,
  nat_eq, string_eq, if◌then◌else◌, Result, ok, err, ◌>>=◌, ◌>>◌, or_fail, guard,
}
use codex_shuttle.Prelude.Text.{bytes}
use codex_shuttle.Prelude.Strings.{is_empty}
use codex_shuttle.Json.{Value, Fields, string, object, get_field, then_str, get_str, insert_field}
use codex_shuttle.Sessions.{
  SessionError, invalid_json, not_session_meta, no_payload, no_thread_id, RolloutCodec,
}

pub record RolloutMeta : Type 0 where
  pub id : String
  pub cwd : Option String
  pub provider : Option String
  pub encrypted : Bool

-- The bytes before the first newline and, if there is one, the bytes after it.
unfoldable pub split_first : List ℕ → List ℕ × Option (List ℕ)
split_first [] = ([], none)
split_first (b ∷ bs) =
    let later = split_first bs in if b == 10 then ([], some bs) else (b ∷ later.0, later.1)

-- `strip_suffix(b"\r")`, or the line itself.
unfoldable pub strip_cr : List ℕ → List ℕ
strip_cr [] = []
strip_cr (b ∷ []) = if b == 13 then [] else b ∷ []
strip_cr (b ∷ c ∷ bs) = b ∷ strip_cr (c ∷ bs)

unfoldable pub begins_with : List ℕ → List ℕ → Bool
begins_with [] bs = true
begins_with (w ∷ ws) [] = false
begins_with (w ∷ ws) (b ∷ bs) = w == b && begins_with ws bs

-- `bytes.windows(word.len()).any(|window| window == word)`
unfoldable pub has_window : List ℕ → List ℕ → Bool
unfolding begins_with
has_window word [] = begins_with word []
has_window word (b ∷ bs) = begins_with word (b ∷ bs) || has_window word bs

unfoldable pub is_encrypted : List ℕ → Bool
unfolding has_window bytes
is_encrypted contents = has_window (bytes "encrypted_content") contents

unfoldable pub is_session_meta : Option String → Bool
is_session_meta none = false
is_session_meta (some kind) = kind == "session_meta"

unfoldable pub payload_of : Fields → Option Value → Result SessionError (Fields × Fields)
payload_of fields (some (object payload)) = ok (fields, payload)
payload_of fields _ = err no_payload

-- The record as an object, with its payload, which is an object as well.
unfoldable pub session_payload : Value → Result SessionError (Fields × Fields)
unfolding is_session_meta payload_of
session_payload (object fields) =
    guard (is_session_meta (then_str (get_field "type" fields))) not_session_meta
    >> payload_of fields (get_field "payload" fields)
session_payload _ = err not_session_meta

unfoldable pub thread_id : Fields → Result SessionError String
thread_id payload = elim (then_str (get_field "id" payload)) [
  | none ↦ err no_thread_id
  | some id ↦ if is_empty id then err no_thread_id else ok id
]

-- The payload after the provider is set, where there is one to set.
unfoldable pub set_provider : Option String → Fields → Fields
set_provider none payload = payload
set_provider (some target) payload = insert_field "model_provider" (string target) payload

-- The line that was there, with the new record in its place.
unfoldable pub replace_first : List ℕ → Option (List ℕ) → List ℕ
replace_first line none = line
replace_first line (some rest) = line ++ 10 ∷ rest

module _ (codec : RolloutCodec) where
  unfoldable pub inspect_and_rewrite :
      Option String → List ℕ → Result SessionError (RolloutMeta × List ℕ)
  unfolding split_first strip_cr session_payload thread_id set_provider replace_first is_encrypted
  inspect_and_rewrite target contents = do
    record_value ← or_fail (codec.from_slice (strip_cr (split_first contents).0)) invalid_json
    (fields, payload) ← session_payload record_value
    id ← thread_id payload
    ok (
      record {
        id = id;
        cwd = then_str (get_field "cwd" payload);
        provider = then_str (get_field "model_provider" payload);
        encrypted = is_encrypted contents;
      },
      replace_first
          (codec.to_vec
            (object (insert_field "payload" (object (set_provider target payload)) fields)))
          (split_first contents).1,
    )
