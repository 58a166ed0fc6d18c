-- ===== src/Bridge/Metadata/Limits.antt =====
-- The limits on instruction sources.
use mathlib.Core.Path.{subst}
use text.Mathlib.TextEquality.{eq_iff}
use codex_shuttle.Prelude.{
  ℕ, zero, suc, ◌+◌, ◌≤◌, ◌≡◌, ap, inl, inr, String, not, List, [], ◌∷◌, Option, none, some, arith,
  ◌==◌, string_eq, ltb, length, take, ok, >>=-eq-ok, guard, guard-eq-ok, or_fail, or_fail-eq-ok,
  All, Bool-cases,
}
use codex_shuttle.Prelude.Text.{bytes}
use codex_shuttle.Prelude.Assoc.{lookup, insert, remove, lookup-insert}
use codex_shuttle.Json.{Value, then_str, pointer}
use codex_shuttle.Bridge.Errors.{
  metadata_disappeared, read_disappeared, instruction_not_base64, instruction_too_large,
  instructions_too_large, instruction_not_utf8,
}
use codex_shuttle.Bridge.Metadata.{
  max_instruction_sources, max_instruction_source_bytes, max_instruction_total_bytes, Decoders,
  PendingThreadMetadata, Pending, instruction_source_paths, content_len, contents_total,
  accept_instruction, record_encoded, record_instruction_read,
}

-- `String::from_utf8` keeps the bytes.
abbrev pub KeepsBytes : Decoders → Type 0
KeepsBytes d = (bs : List ℕ) (s : String) → d.from_utf8 bs ≡ some s → bytes s ≡ bs

-- The contents gathered for one request.
pub record IsWithinLimits (contents : List (String × String)) : Type 0 where
  pub sum : contents_total contents ≤ max_instruction_total_bytes
  pub each : All (λ (c : String × String). content_len c.1 ≤ max_instruction_source_bytes) contents

contents_total-insert :
    (k v : String) (contents : List (String × String))
    → contents_total (insert k v contents) ≤ contents_total contents + content_len v
unfolding contents_total insert
contents_total-insert k v [] = omega arith
contents_total-insert k v ((j, w) ∷ rest) =
    ground (arith, contents_total-insert k v rest, eq_iff j k)

All-insert :
    (P : String × String → Type 0) (k v : String) (contents : List (String × String))
    → P (k, v)
    → All P contents
    → All P (insert k v contents)
unfolding insert
All-insert P k v [] p h = (p, tt)
All-insert P k v ((j, w) ∷ rest) p (q, h) = elim (Bool-cases (j == k)) [
  | inl e ↦ rw e (p, h)
  | inr e ↦ rw e (q, All-insert P k v rest p h)
]

length-take-le : (n : ℕ) (xs : List String) → length (take n xs) ≤ n
length-take-le zero xs = omega arith
length-take-le (suc n) [] = omega arith
length-take-le (suc n) (x ∷ xs) = omega (arith, length-take-le n xs)

-- At most 32 sources are read for a request, whatever the host names.
pub instruction_source_paths_bound :
    (response : Value) → length (instruction_source_paths response) ≤ max_instruction_sources
unfolding instruction_source_paths
instruction_source_paths_bound response = length-take-le max_instruction_sources _

module _ (d : Decoders) (keeps : KeepsBytes d) where
  accept-IsWithinLimits :
      (path encoded : String) (entry entry' : PendingThreadMetadata)
      → IsWithinLimits entry.instruction_contents
      → accept_instruction d path encoded entry ≡ ok entry'
      → IsWithinLimits entry'.instruction_contents
  unfolding accept_instruction content_len
  accept-IsWithinLimits path encoded entry entry' w h =
      let (bs, _, h₁) = >>=-eq-ok (or_fail (d.base64 encoded) (instruction_not_base64 path)) _ h in
      let (_, small, h₂) =
        >>=-eq-ok
          (guard (not (ltb max_instruction_source_bytes (length bs))) (instruction_too_large path))
          _ h₁ in
      let old = entry.instruction_contents in
      let (_, fits, h₃) =
        >>=-eq-ok
          (guard (not (ltb max_instruction_total_bytes (contents_total old + length bs)))
            (instructions_too_large path))
          _ h₂ in
      let (text, decoded, h₄) =
        >>=-eq-ok (or_fail (d.from_utf8 bs) (instruction_not_utf8 path)) _ h₃ in
      let size : content_len text ≡ length bs =
        ap length
          (keeps bs text (or_fail-eq-ok (d.from_utf8 bs) (instruction_not_utf8 path) decoded)) in
      let small' = guard-eq-ok (not (ltb max_instruction_source_bytes (length bs))) _ small in
      let fits' =
        guard-eq-ok (not (ltb max_instruction_total_bytes (contents_total old + length bs))) _
          fits in
      let same : insert path text old ≡ entry'.instruction_contents = ground (arith, h₄) in
      subst IsWithinLimits same (record {
        sum = ground (arith, contents_total-insert path text old, size, fits');
        each =
            All-insert (λ c. content_len c.1 ≤ max_instruction_source_bytes) path text old
              (ground (arith, size, small')) w.each;
      })

  recorded-IsWithinLimits :
      (path : String) (encoded : Option String) (entry entry' : PendingThreadMetadata)
      → IsWithinLimits entry.instruction_contents
      → record_encoded d path encoded entry ≡ ok entry'
      → IsWithinLimits entry'.instruction_contents
  unfolding record_encoded
  recorded-IsWithinLimits path none entry entry' w h =
      subst (λ (e : PendingThreadMetadata). IsWithinLimits e.instruction_contents) {x = entry}
        {y = entry'} (cc h) w
  recorded-IsWithinLimits path (some encoded) entry entry' w h =
      accept-IsWithinLimits path encoded entry entry' w h

  -- If decoding UTF-8 keeps the bytes, and every entry of the table holds at most 512 KiB of
  -- instructions, with at most 256 KiB a source, then this is so of every entry after an answer to
  -- a read was recorded, whatever the answer.
  pub record_instruction_read-IsWithinLimits :
      (metadata_id read_id : String) (response : Value) (pending pending' : Pending)
      → ((k : String) (e : PendingThreadMetadata)
          → lookup k pending ≡ some e
          → IsWithinLimits e.instruction_contents)
      → record_instruction_read d metadata_id read_id response pending ≡ ok pending'
      → (k : String) (e : PendingThreadMetadata) → lookup k pending' ≡ some e
      → IsWithinLimits e.instruction_contents
  unfolding record_instruction_read
  record_instruction_read-IsWithinLimits metadata_id read_id response pending pending' w h k e
        at_k =
      let (entry, found, h₁) =
        >>=-eq-ok (or_fail (lookup metadata_id pending) metadata_disappeared) _ h in
      let (path, _, h₂) =
        >>=-eq-ok (or_fail (lookup read_id entry.pending_instruction_reads) read_disappeared) _
          h₁ in
      let reads = remove read_id entry.pending_instruction_reads in
      let (entry', recorded, h₃) =
        >>=-eq-ok
          (record_encoded d path (then_str (pointer ("result" ∷ "dataBase64" ∷ []) response))
            (record entry { pending_instruction_reads = reads }))
          _ h₂ in
      let old = w metadata_id entry (or_fail-eq-ok (lookup metadata_id pending) _ found) in
      let new =
        recorded-IsWithinLimits path _ (record entry { pending_instruction_reads = reads }) entry'
          old recorded in
      let table : insert metadata_id entry' pending ≡ pending' = cc h₃ in
      elim (Bool-cases (metadata_id == k)) [
        | inl hit ↦
            subst (λ (x : PendingThreadMetadata). IsWithinLimits x.instruction_contents)
              {x = entry'} {y = e}
              (ground (arith, lookup-insert metadata_id k entry' pending, ap (lookup k) table)) new
        | inr miss ↦
            w k e (ground (arith, lookup-insert metadata_id k entry' pending, ap (lookup k) table))
      ]
