-- ===== src/Bridge/Metadata/Instructions.antt =====
-- `send_local_thread_start`: what is sent to the local App Server for a thread/start request, and when.
use Prim.Native.String.{◌++◌}
use text.Mathlib.TextEquality.{eq_iff}
use text.Mathlib.TextPositions.{eq_refl}
use codex_shuttle.Prelude.{
  String, ◌≡◌, refl, sym, ap, subst, ◌∙◌, ◌≢◌, ◌⊎◌, inl, inr, true, false, List, [], ◌∷◌, Option,
  none, some, arith, ◌==◌, string_eq, if◌then◌else◌, ok, ◌>>=◌, >>=-eq-ok, or_fail, or_fail-eq-ok,
  Bool-cases, Option-cases,
}
use codex_shuttle.Prelude.Assoc.{lookup, insert, lookup-insert}
use codex_shuttle.Json.{
  Value, Fields, Codec, null, object, string, end, get, get_field, insert_field, then_str,
  as_object,
}
use codex_shuttle.Json.Laws.{get_field-insert}
use codex_shuttle.Bridge.Errors.{Fallible, metadata_disappeared, not_an_object}
use codex_shuttle.Bridge.Rewrite.{entry_object, object_field_in, with_object_field}
use codex_shuttle.Bridge.Metadata.{
  PendingThreadMetadata, Pending, send_local_thread_start, with_instructions, add_instructions,
  instruction_texts, join_blank, or_empty,
}

-- The sources whose contents were read, in the order of their paths, each under its heading.
pub data IsGathered (contents : List (String × String)) : List String → List String → Type 0 where
  all_done : IsGathered contents [] []
  unread :
      (path : String) (paths texts : List String)
      → lookup path contents ≡ none
      → IsGathered contents paths texts
      → IsGathered contents (path ∷ paths) texts
  was_read :
      (path text : String) (paths texts : List String)
      → lookup path contents ≡ some text
      → IsGathered contents paths texts
      → IsGathered contents (path ∷ paths) (("Instructions from " ++ path ++ ":\n" ++ text) ∷ texts)

instruction_texts-IsGathered :
    (paths : List String) (contents : List (String × String))
    → IsGathered contents paths (instruction_texts paths contents)
unfolding instruction_texts
instruction_texts-IsGathered [] contents = all_done
instruction_texts-IsGathered (path ∷ paths) contents = elim (Option-cases (lookup path contents)) [
  | inl missing ↦
      rw (instruction_texts, missing)
        (unread path paths _ missing (instruction_texts-IsGathered paths contents))
  | inr (text, found) ↦
      rw (instruction_texts, found)
        (was_read path text paths _ found (instruction_texts-IsGathered paths contents))
]

-- The parameters of a request, where none and null are the empty object.
abbrev pub IsParams : Option Value → Fields → Type 0
IsParams none params = params ≡ end
IsParams (some null) params = params ≡ end
IsParams (some (object fs)) params = params ≡ fs
IsParams (some _) params = ⊥

-- What stands before the instructions, unless it is empty.
abbrev pub pieces : String → List String → List String
pieces existing texts = if existing == "" then texts else existing ∷ texts

-- The request with the texts behind its developer instructions, and everything else as it was; without
-- a text, the request as it was.
abbrev pub IsInstructed : List String → Value → Value → Type 0
IsInstructed [] request sent = sent ≡ request
IsInstructed (text ∷ texts) request sent =
    (params : Fields) × (params' : Fields) × IsParams (get "params" request) params
    × (get "params" sent ≡ some (object params'))
    × ((k : String) → k ≢ "params" → get k sent ≡ get k request)
    × ((k : String) → k ≢ "developerInstructions" → get_field k params' ≡ get_field k params)
    × (get_field "developerInstructions" params'
        ≡ some (
            string (
              join_blank (
                pieces (or_empty (then_str (get_field "developerInstructions" params)))
                  (text ∷ texts)))))

entry_object-IsParams :
    (o : Option Value) (name : String) (params : Fields)
    → entry_object o name ≡ ok params
    → IsParams o params
unfolding entry_object
entry_object-IsParams none name params h = ground arith
entry_object-IsParams (some null) name params h = ground arith
entry_object-IsParams (some (object fs)) name params h = ground arith
entry_object-IsParams (some (Value.boolean b)) name params h = cc
entry_object-IsParams (some (Value.number n)) name params h = cc
entry_object-IsParams (some (string s)) name params h = cc
entry_object-IsParams (some (Value.array xs)) name params h = cc

object-eq : (v : Value) (fs : Fields) → as_object v ≡ some fs → v ≡ object fs
unfolding as_object
object-eq (object m) fs h = ground arith
object-eq null fs h = cc
object-eq _ fs h = cc

combined_pieces :
    (existing text : String) (texts : List String)
    → (if existing == ""
        then join_blank (text ∷ texts)
        else existing ++ "\n\n" ++ join_blank (text ∷ texts))
      ≡ join_blank (pieces existing (text ∷ texts))
unfolding join_blank
combined_pieces existing text texts = elim (Bool-cases (existing == "")) [
  | inl empty ↦ rw empty refl
  | inr some_text ↦ rw some_text refl
]

object_sent :
    (request sent : Value) (fs params params' : Fields) (combined : String)
    → as_object request ≡ some fs
    → insert_field "developerInstructions" (string combined) params ≡ params'
    → object (insert_field "params" (object params') fs) ≡ sent
    → (get "params" sent ≡ some (object params'))
      × ((k : String) → k ≢ "params" → get k sent ≡ get k request)
      × ((k : String) → k ≢ "developerInstructions" → get_field k params' ≡ get_field k params)
      × (get_field "developerInstructions" params' ≡ some (string combined))
unfolding get
object_sent request sent fs params params' combined whole made same =
    let request_eq = object-eq request fs whole in
    (
      ap (get "params") (sym same) ∙ get_field-insert "params" "params" (object params') fs,
      λ k n.
          ap (get k) (sym same)
          ∙ (get_field-insert "params" k (object params') fs ∙ ground (arith, eq_iff "params" k))
          ∙ ap (get k) (sym request_eq),
      λ k n.
          ap (get_field k) (sym made)
          ∙ (get_field-insert "developerInstructions" k (string combined) params
              ∙ ground (arith, eq_iff "developerInstructions" k)),
      ap (get_field "developerInstructions") (sym made)
          ∙ get_field-insert "developerInstructions" "developerInstructions" (string combined)
              params,
    )

with_instructions-IsInstructed :
    (texts : List String) (request sent : Value)
    → with_instructions texts request ≡ ok sent
    → IsInstructed texts request sent
unfolding with_instructions with_object_field add_instructions object_field_in get
with_instructions-IsInstructed [] request sent h = ground arith
with_instructions-IsInstructed (text ∷ texts) request sent h =
    let put : Fields → Fields → Fallible Value =
      λ fs inner'. ok (object (insert_field "params" (object inner') fs)) in
    let change : Fields → Fields → Fallible Value =
      λ fs inner. add_instructions (text ∷ texts) inner >>= put fs in
    let (fs, fields, h₁) =
      >>=-eq-ok (or_fail (as_object request) not_an_object)
        (λ fs. object_field_in "params" fs >>= change fs) h in
    let (params, given, h₂) = >>=-eq-ok (object_field_in "params" fs) (change fs) h₁ in
    let (params', added, h₃) = >>=-eq-ok (add_instructions (text ∷ texts) params) (put fs) h₂ in
    let whole = or_fail-eq-ok (as_object request) not_an_object fields in
    let existing = or_empty (then_str (get_field "developerInstructions" params)) in
    let same : object (insert_field "params" (object params') fs) ≡ sent = cc h₃ in
    let made : insert_field "developerInstructions"
          (string (
            if existing == ""
            then join_blank (text ∷ texts)
            else existing ++ "\n\n" ++ join_blank (text ∷ texts)))
          params
        ≡ params' =
      cc added in
    let (there, others, kept, combined) =
      object_sent request sent fs params params' _ whole made same in
    (
      params,
      params',
      subst (λ v. IsParams (get "params" v) params) (sym (object-eq request fs whole))
          (entry_object-IsParams (get_field "params" fs) "params" params given),
      there,
      others,
      kept,
      combined ∙ ap (λ s. some (string s)) (combined_pieces existing text texts),
    )

-- What one call sends for an entry.
abbrev pub Sends : Codec → PendingThreadMetadata → Option String → Type 0
Sends codec entry out =
    ((entry.local_sent ≡ true) × (out ≡ none))
    ⊎ ((texts : List String) × (sent : Value) × (entry.local_sent ≡ false)
        × IsGathered entry.instruction_contents entry.instruction_paths texts
        × IsInstructed texts entry.local_request sent
        × (out ≡ some (codec.encode sent)))

-- A call that succeeds sends nothing if the entry is marked as sent, and otherwise the entry's request,
-- with the instructions that were read, in the order of their paths, behind its own developer
-- instructions, and as it was if none was read; the entry is marked afterwards, so that no later call
-- sends it, and every other entry is as it was.
pub send_local_thread_start_once :
    (codec : Codec) (metadata_id : String) (pending pending' : Pending) (out : Option String)
    → send_local_thread_start codec metadata_id pending ≡ ok (out, pending')
    → (entry : PendingThreadMetadata) × (lookup metadata_id pending ≡ some entry)
      × (lookup metadata_id pending' ≡ some (record entry { local_sent = true }))
      × Sends codec entry out
      × ((k : String) → k ≢ metadata_id → lookup k pending' ≡ lookup k pending)
unfolding send_local_thread_start
send_local_thread_start_once codec metadata_id pending pending' out h =
    let (entry, found, h₁) =
      >>=-eq-ok (or_fail (lookup metadata_id pending) metadata_disappeared) _ h in
    let there = or_fail-eq-ok (lookup metadata_id pending) metadata_disappeared found in
    elim (Bool-cases entry.local_sent) [
      | inl before ↦
          let h₂ = rw before at h₁ in
          let same : pending ≡ pending' = cc h₂ in
          (
            entry,
            there,
            ap (lookup metadata_id) (sym same) ∙ ground (arith, there, before),
            inl (before, cc h₂),
            λ k n. ap (lookup k) (sym same),
          )
      | inr not_yet ↦
          let (request, made, h₃) =
            >>=-eq-ok
              (with_instructions
                (instruction_texts entry.instruction_paths entry.instruction_contents)
                entry.local_request)
              _ (rw not_yet at h₁) in
          let entry' = record entry { local_sent = true } in
          let same : insert metadata_id entry' pending ≡ pending' = cc h₃ in
          (
            entry,
            there,
            ap (lookup metadata_id) (sym same)
                ∙ lookup-insert metadata_id metadata_id entry' pending
                ∙ rw eq_refl,
            inr (
              _,
              request,
              not_yet,
              instruction_texts-IsGathered entry.instruction_paths entry.instruction_contents,
              with_instructions-IsInstructed _ entry.local_request request made,
              cc h₃,
            ),
            λ k n.
                ap (lookup k) (sym same)
                ∙ (ground
                    (arith, lookup-insert metadata_id k entry' pending, eq_iff metadata_id k)),
          )
    ]
