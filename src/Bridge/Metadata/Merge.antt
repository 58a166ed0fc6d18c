-- ===== src/Bridge/Metadata/Merge.antt =====
-- `merge_thread_metadata`, field by field.
use text.Mathlib.TextEquality.{eq_iff}
use codex_shuttle.Prelude.{
  ◌≡◌, refl, sym, ap, ◌∙◌, ◌≢◌, inl, inr, String, false, List, [], ◌∷◌, Option, none, some, arith,
  string_eq, if◌then◌else◌, ok, Option-cases,
}
use codex_shuttle.Json.{Value, Fields, null, object, get, get_field}
use codex_shuttle.Json.Laws.{get_field-insert}
use codex_shuttle.Core.Routing.{contains}
use codex_shuttle.Bridge.Registration.{has_error}
use codex_shuttle.Bridge.Host.{object_in, copy_fields, put_object}
use codex_shuttle.Bridge.Host.Isolation.{first_of_two, copy_fields_lem, put_object_lem}
use codex_shuttle.Bridge.Metadata.{merge_thread, merge_thread_into, merge_thread_metadata}

-- The field of a thread in a result, if the result has a thread that is an object.
abbrev pub thread_field : String → Option Value → Option Value
thread_field k (some (object thread)) = get_field k thread
thread_field k _ = none

module _ (k : String) (h result : Fields) where
  into_other :
      (o : Option Value)
      → k ≢ "thread"
      → get_field k (merge_thread_into o h result) ≡ get_field k result
  unfolding merge_thread_into
  into_other none n = refl
  into_other (some (object t)) n = ground (
    arith,
    get_field-insert "thread" k (object (copy_fields ("cwd" ∷ "gitInfo" ∷ []) h t)) result,
    eq_iff "thread" k,
  )
  into_other (some null) n = refl
  into_other (some _) n = refl

  into_same :
      (o : Option Value)
      → get_field "thread" result ≡ o
      → contains ("cwd" ∷ "gitInfo" ∷ []) k ≡ false
      → thread_field k (get_field "thread" (merge_thread_into o h result)) ≡ thread_field k o
  unfolding merge_thread_into
  into_same none e n = ap (thread_field k) e
  into_same (some (object t)) e n =
      let copied = copy_fields ("cwd" ∷ "gitInfo" ∷ []) h t in
      ap (thread_field k) (get_field-insert "thread" "thread" (object copied) result)
      ∙ copy_fields_lem ("cwd" ∷ "gitInfo" ∷ []) k h t
      ∙ rw n
  into_same (some null) e n = ap (thread_field k) e
  into_same (some _) e n = ap (thread_field k) e

module _ (k : String) (host_thread : Option Fields) (result : Fields) where
  merge_thread_other :
      k ≢ "thread" → get_field k (merge_thread host_thread result) ≡ get_field k result
  unfolding merge_thread
  merge_thread_other n = elim (Option-cases host_thread) [
    | inl e ↦ rw e
    | inr (h, e) ↦ rw e (into_other k h result (get_field "thread" result) n)
  ]

  merge_thread_same :
      contains ("cwd" ∷ "gitInfo" ∷ []) k ≡ false
      → thread_field k (get_field "thread" (merge_thread host_thread result))
        ≡ thread_field k (get_field "thread" result)
  unfolding merge_thread
  merge_thread_same n = elim (Option-cases host_thread) [
    | inl e ↦ rw e
    | inr (h, e) ↦ rw e (into_same k h result (get_field "thread" result) refl n)
  ]

abbrev pub host_fields : List String
host_fields = "cwd" ∷ "runtimeWorkspaceRoots" ∷ "instructionSources" ∷ []

-- A response without error, from both sides: the client gets the local App Server's message with
-- another result only, in which the directory, the workspace roots and the instruction sources are
-- the host's where the host gave them, the thread keeps its local id and every other field but its
-- directory and its Git information, and all else is the local result's.
pub merge_thread_metadata_lem :
    (from_local from_host merged : Value) (result remote : Fields)
    → has_error from_local ≡ false
    → has_error from_host ≡ false
    → object_in "result" from_local ≡ some result
    → object_in "result" from_host ≡ some remote
    → merge_thread_metadata from_local from_host ≡ ok merged
    → ((k : String) → k ≢ "result" → get k merged ≡ get k from_local)
      × ((result' : Fields) × (get "result" merged ≡ some (object result'))
          × ((k : String)
              → k ≢ "thread"
              → get_field k result' ≡ (
                  if contains host_fields k
                  then first_of_two (get_field k remote) (get_field k result)
                  else get_field k result))
          × ((k : String)
              → contains ("cwd" ∷ "gitInfo" ∷ []) k ≡ false
              → thread_field k (get_field "thread" result')
                ≡ thread_field k (get_field "thread" result)))
unfolding merge_thread_metadata
merge_thread_metadata_lem from_local from_host merged result remote el eh rl rh h =
    let copied = copy_fields host_fields remote result in
    let host_thread = object_in "thread" (object remote) in
    let result' = merge_thread host_thread copied in
    let same : put_object "result" result' from_local ≡ merged =
      ground (arith, el, eh, rl, rh, h) in
    (
      λ k n.
          ap (get k) (sym same)
          ∙ put_object_lem "result" k result' from_local rl
          ∙ ground (arith, eq_iff "result" k),
      (
        result',
        ap (get "result") (sym same) ∙ put_object_lem "result" "result" result' from_local rl,
        λ k n.
            merge_thread_other k host_thread copied n ∙ copy_fields_lem host_fields k remote result,
        λ k n.
            merge_thread_same k host_thread copied n
            ∙ ap (thread_field k)
                (copy_fields_lem host_fields "thread" remote result ∙ (unfold contains in refl)),
      ),
    )
