-- ===== src/Sessions/Rollout/Rewritten.antt =====
-- `inspect_and_rewrite` on its own result.
use codex_shuttle.Prelude.{
  ℕ, String, ◌≡◌, refl, sym, subst, ap, ◌∙◌, true, false, List, [], ◌∷◌, Option, none, some, arith,
  ◌==◌, nat_eq, string_eq, any, Result, ok, guard, >>=-eq-ok, guard-eq-ok,
}
use codex_shuttle.Prelude.Strings.Lines.{is_break}
use codex_shuttle.Json.{
  Value, Fields, string, object, null, boolean, number, array, get_field, then_str, as_str,
  insert_field,
}
use codex_shuttle.Json.Laws.{get_field-insert}
use codex_shuttle.Sessions.{SessionError, RolloutCodec, not_session_meta}
use codex_shuttle.Sessions.Rollout.{
  RolloutMeta, split_first, strip_cr, is_encrypted, is_session_meta, payload_of, session_payload,
  thread_id, set_provider, replace_first, inspect_and_rewrite,
}

-- The record that is written for a target provider.
abbrev pub rewritten : String → Fields → Fields → Value
rewritten target fields payload =
    object (insert_field "payload" (object (set_provider (some target) payload)) fields)

-- `to_vec` writes a value on one line, and `from_slice` reads it back.
abbrev pub IsReadBack : RolloutCodec → Value → Type 0
IsReadBack codec value =
    (codec.from_slice (codec.to_vec value) ≡ some value)
    × (any is_break (codec.to_vec value) ≡ false)

split_first-replace_first :
    (line : List ℕ) (rest : Option (List ℕ))
    → any is_break line ≡ false
    → split_first (replace_first line rest) ≡ (line, rest)
unfolding split_first replace_first
split_first-replace_first [] none h = refl
split_first-replace_first [] (some rest) h = refl
split_first-replace_first (b ∷ line) none h =
    ground (arith, split_first-replace_first line none (ground arith))
split_first-replace_first (b ∷ line) (some rest) h =
    ground (arith, split_first-replace_first line (some rest) (ground arith))

strip_cr-line : (line : List ℕ) → any is_break line ≡ false → strip_cr line ≡ line
unfolding strip_cr
strip_cr-line [] h = refl
strip_cr-line (b ∷ []) h = ground arith
strip_cr-line (b ∷ c ∷ line) h = ap (λ rest. b ∷ rest) (strip_cr-line (c ∷ line) (ground arith))

payload_of-ok :
    (fields given payload : Fields) (found : Option Value)
    → payload_of fields found ≡ ok (given, payload)
    → (fields ≡ given) × (found ≡ some (object payload))
unfolding payload_of
payload_of-ok fields given payload (some (object other)) h = ground arith
payload_of-ok fields given payload (some null) h = cc
payload_of-ok fields given payload (some (boolean b)) h = cc
payload_of-ok fields given payload (some (number n)) h = cc
payload_of-ok fields given payload (some (string s)) h = cc
payload_of-ok fields given payload (some (array xs)) h = cc
payload_of-ok fields given payload none h = cc

session_payload-ok :
    (value : Value) (fields payload : Fields)
    → session_payload value ≡ ok (fields, payload)
    → is_session_meta (then_str (get_field "type" fields)) ≡ true
unfolding session_payload
session_payload-ok (object given) fields payload h =
    let (u, kind, found) =
      >>=-eq-ok (guard (is_session_meta (then_str (get_field "type" given))) not_session_meta) _
        h in
    let (same, present) = payload_of-ok given fields payload _ found in
    ap (λ fs. is_session_meta (then_str (get_field "type" fs))) (sym same)
    ∙ guard-eq-ok _ not_session_meta kind
session_payload-ok null fields payload h = cc
session_payload-ok (boolean b) fields payload h = cc
session_payload-ok (number n) fields payload h = cc
session_payload-ok (string s) fields payload h = cc
session_payload-ok (array xs) fields payload h = cc

session_payload-rewritten :
    (target : String) (fields payload : Fields)
    → is_session_meta (then_str (get_field "type" fields)) ≡ true
    → session_payload (rewritten target fields payload)
      ≡ ok (
        insert_field "payload" (object (set_provider (some target) payload)) fields,
        set_provider (some target) payload,
      )
unfolding session_payload payload_of
session_payload-rewritten target fields payload h =
    rw (session_payload, get_field-insert "payload", get_field-insert "payload", h) refl

-- The other fields of the payload stay.
payload_kept :
    (key target : String) (payload : Fields)
    → ("model_provider" == key) ≡ false
    → get_field key (set_provider (some target) payload) ≡ get_field key payload
unfolding set_provider
payload_kept key target payload h = rw (get_field-insert "model_provider" key, h) refl

provider_set :
    (target : String) (payload : Fields)
    → then_str (get_field "model_provider" (set_provider (some target) payload)) ≡ some target
unfolding set_provider then_str as_str
provider_set target payload = rw (get_field-insert "model_provider" "model_provider") refl

abbrev first_line : List ℕ → List ℕ
first_line contents = strip_cr (split_first contents).0

abbrev meta_of : List ℕ → Fields → String → RolloutMeta
meta_of contents payload id = record {
  id = id;
  cwd = then_str (get_field "cwd" payload);
  provider = then_str (get_field "model_provider" payload);
  encrypted = is_encrypted contents;
}

module _ (codec : RolloutCodec) (target : String) where
  abbrev new_contents : List ℕ → Fields → Fields → List ℕ
  new_contents contents fields payload =
      replace_first (codec.to_vec (rewritten target fields payload)) (split_first contents).1

  inspect_and_rewrite-eq :
      (contents : List ℕ) (value : Value) (fields payload : Fields) (id : String)
      → codec.from_slice (first_line contents) ≡ some value
      → session_payload value ≡ ok (fields, payload)
      → thread_id payload ≡ ok id
      → inspect_and_rewrite codec (some target) contents
        ≡ ok (meta_of contents payload id, new_contents contents fields payload)
  unfolding inspect_and_rewrite
  inspect_and_rewrite-eq contents value fields payload id decoded found named =
      rw (decoded, found, named) refl

  thread_id-set_provider :
      (payload : Fields) → thread_id (set_provider (some target) payload) ≡ thread_id payload
  unfolding thread_id
  thread_id-set_provider payload = rw (thread_id, payload_kept "id" target payload refl) refl

  inspect_and_rewrite-new_contents :
      (contents : List ℕ) (fields payload : Fields) (id : String)
      → is_session_meta (then_str (get_field "type" fields)) ≡ true
      → thread_id payload ≡ ok id
      → IsReadBack codec (rewritten target fields payload)
      → inspect_and_rewrite codec (some target) (new_contents contents fields payload)
        ≡ ok (
          record {
            id = id;
            cwd = then_str (get_field "cwd" payload);
            provider = some target;
            encrypted = is_encrypted (new_contents contents fields payload);
          },
          new_contents
              (new_contents contents fields payload)
              (insert_field "payload" (object (set_provider (some target) payload)) fields)
              (set_provider (some target) payload),
        )
  inspect_and_rewrite-new_contents contents fields payload id kind named (reads, flat) =
      let line = codec.to_vec (rewritten target fields payload) in
      let split = split_first-replace_first line (split_first contents).1 flat in
      inspect_and_rewrite-eq (new_contents contents fields payload)
        (rewritten target fields payload) _ _ id (rw (split, strip_cr-line line flat) reads)
        (session_payload-rewritten target fields payload kind)
        (thread_id-set_provider payload ∙ named)
      ∙ rw (payload_kept "cwd" target payload refl, provider_set target payload) refl

named_thread :
    (codec : RolloutCodec) (target : String) (contents updated : List ℕ) (meta : RolloutMeta)
    (value : Value) (fields payload : Fields)
    → codec.from_slice (first_line contents) ≡ some value
    → session_payload value ≡ ok (fields, payload)
    → inspect_and_rewrite codec (some target) contents ≡ ok (meta, updated)
    → (id : String) × (thread_id payload ≡ ok id)
unfolding inspect_and_rewrite
named_thread codec target contents updated meta value fields payload decoded found h =
    let (id, named, rest) = >>=-eq-ok (thread_id payload) _ (rw (decoded, found) at h) in
    (id, named)

ok_inj :
    {a b : RolloutMeta × List ℕ}
    → Path (Result SessionError (RolloutMeta × List ℕ)) (ok a) (ok b)
    → a ≡ b
ok_inj h = ground arith

-- Where `inspect_and_rewrite` accepts a file for a target provider and JSON reads back what it wrote,
-- the new contents are accepted as well, with the same thread id and working directory and with the
-- target as the provider, and every byte after the first line is as before.
pub inspect_and_rewrite-target :
    (codec : RolloutCodec) (target : String) (contents updated : List ℕ) (meta : RolloutMeta)
    (value : Value) (fields payload : Fields)
    → codec.from_slice (first_line contents) ≡ some value
    → session_payload value ≡ ok (fields, payload)
    → IsReadBack codec (rewritten target fields payload)
    → inspect_and_rewrite codec (some target) contents ≡ ok (meta, updated)
    → (next : List ℕ) × (inspect_and_rewrite codec (some target) updated
        ≡ ok (
          record {
            id = meta.id;
            cwd = meta.cwd;
            provider = some target;
            encrypted = is_encrypted updated;
          },
          next,
        ))
      × ((split_first updated).1 ≡ (split_first contents).1)
inspect_and_rewrite-target codec target contents updated meta value fields payload decoded found
      (reads, flat) h =
    let (id, named) =
      named_thread codec target contents updated meta value fields payload decoded found h in
    let same =
      sym (inspect_and_rewrite-eq codec target contents value fields payload id decoded found named)
      ∙ h in
    subst
      (λ r.
        (next : List ℕ) × (inspect_and_rewrite codec (some target) r.1
          ≡ ok (
            record {
              id = r.0.id;
              cwd = r.0.cwd;
              provider = some target;
              encrypted = is_encrypted r.1;
            },
            next,
          ))
        × ((split_first r.1).1 ≡ (split_first contents).1))
      (ok_inj same)
      (
        _,
        inspect_and_rewrite-new_contents codec target contents fields payload id
            (session_payload-ok value fields payload found) named (reads, flat),
        ap (λ r. r.1) (split_first-replace_first _ (split_first contents).1 flat),
      )
