-- ===== src/Core/Scope.antt =====
-- crates/cxs-core/src/lib.rs: `SessionScope`, the thread ids that a profile may show. The set is a
-- sorted list of texts, as a `BTreeSet` iterates.
use Prim.Native.Nat.{Ordering}
use Prim.Native.String.{compare}
use text.Mathlib.TextEquality.{eq_iff, path_by_compare}
use codex_shuttle.Prelude.{
  ℕ, String, ◌≡◌, refl, Bool, true, false, ◌||◌, List, [], ◌∷◌, arith, ◌==◌, string_eq,
  if◌then◌else◌, Result, ok, ◌>>◌,
}
use codex_shuttle.Core.Names.{ThreadIdError, validate_thread_id}
use codex_shuttle.Core.Routing.{contains}

abbrev pub session_scope_schema_version : ℕ
session_scope_schema_version = 1

-- `BTreeSet::insert`
unfoldable pub insert_id : String → List String → List String
insert_id s [] = s ∷ []
insert_id s (t ∷ ts) = elim (compare t s) [
  | Ordering.eq ↦ t ∷ ts
  | Ordering.gt ↦ s ∷ t ∷ ts
  | Ordering.lt ↦ t ∷ insert_id s ts
]

-- After an insertion the set has the new id and what it had.
pub contains-insert_id :
    (s t : String) (ids : List String) → contains (insert_id s ids) t ≡ (s == t || contains ids t)
unfolding contains insert_id
contains-insert_id s t [] = refl
contains-insert_id s t (x ∷ xs) =
    ground
      (arith, eq_iff x s, eq_iff s t, eq_iff x t, path_by_compare x s, contains-insert_id s t xs)

pub record SessionScope : Type 0 where
  pub schema_version : ℕ
  pub enabled : Bool
  pub thread_ids : List String

-- `SessionScope::enabled`
abbrev pub enabled_scope : SessionScope
enabled_scope = record {
  schema_version = session_scope_schema_version;
  enabled = true;
  thread_ids = [];
}

-- Whether the id is new, and the scope afterwards.
unfoldable pub record_thread : SessionScope → String → Result ThreadIdError (Bool × SessionScope)
record_thread scope thread_id = do
  validate_thread_id thread_id
  ok (
    if contains scope.thread_ids thread_id then false else true,
    record scope { thread_ids = insert_id thread_id scope.thread_ids },
  )
