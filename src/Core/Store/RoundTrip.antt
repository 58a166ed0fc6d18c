-- ===== src/Core/Store/RoundTrip.antt =====
-- `ProfileStore`: saving and loading a profile and its session scope.
use text.Mathlib.TextEquality.{eq_iff}
use codex_shuttle.Prelude.{
  ◌≡◌, refl, ap, ◌∙◌, ◌≢◌, inl, inr, String, Bool, true, false, Option, none, some, arith, ◌==◌,
  nat_eq, string_eq, Result, ok, err, ◌>>◌, Bool-cases,
}
use codex_shuttle.Prelude.Assoc.{lookup, insert, lookup-insert}
use codex_shuttle.Core.Profile.{Profile, profile_schema_version}
use codex_shuttle.Core.Scope.{SessionScope, session_scope_schema_version}
use codex_shuttle.Core.Store.{
  StoreError, Directory, Entry, empty, directory, other, Store, Outcome, after, checked_name,
  StoreCodec, private_dir_at, create_private_dir, replace, text_of, check_profile, load, save,
  load_session_scope, read_session_scope, check_scope, save_session_scope,
}

-- Reading gives back what was written as JSON.
abbrev pub ReadsProfile : StoreCodec → Profile → Type 0
ReadsProfile codec p = codec.read_profile (codec.profile_text p) ≡ some p

abbrev pub ReadsScope : StoreCodec → SessionScope → Type 0
ReadsScope codec scope = codec.read_scope (codec.scope_text scope) ≡ some scope

-- The directory under a name has the changed file, and other names are as before.
abbrev Replaces : String → (Directory → Directory) → Store → Store → Type 0
Replaces name f s t =
    (d : Directory) × (lookup name t ≡ some (directory (f d)))
    × ((k : String) → k ≢ name → lookup k t ≡ lookup k s)
    × ((g : Directory → Option String) → g empty ≡ none → g d ≡ text_of g (lookup name s))

pub insert_lem :
    (name k : String) (e : Entry) (s : Store)
    → (lookup name (insert name e s) ≡ some e)
      × (k ≢ name → lookup k (insert name e s) ≡ lookup k s)
insert_lem name k e s = (
  ground (arith, lookup-insert name name e s, eq_iff name name),
  λ n. ground (arith, lookup-insert name k e s, eq_iff name k),
)

inserted :
    (name : String) (f : Directory → Directory) (d : Directory) (s s' t : Store)
    → ((k : String) → k ≢ name → lookup k s' ≡ lookup k s)
    → ((g : Directory → Option String) → g empty ≡ none → g d ≡ text_of g (lookup name s))
    → insert name (directory (f d)) s' ≡ t
    → Replaces name f s t
inserted name f d s s' t same was h = (
  d,
  rw (← h) (insert_lem name name (directory (f d)) s').0,
  λ k n. rw (← h) ((insert_lem name k (directory (f d)) s').1 n ∙ same k n),
  was,
)

replaced_at :
    (o : Option Entry) (written : Bool) (name : String) (f : Directory → Directory) (s t : Store)
    → lookup name s ≡ o
    → replace written name f (private_dir_at o name s) ≡ (ok tt, t)
    → Replaces name f s t
unfolding replace private_dir_at text_of
replaced_at none true name f s t e h =
    inserted name f empty s (insert name (directory empty) s) t
      (λ k. (insert_lem name k (directory empty) s).1) (λ g blank. rw e blank) (ap (λ x. x.1) h)
replaced_at (some (directory d)) true name f s t e h =
    inserted name f d s s t (λ k n. refl) (λ g blank. rw e refl) (ap (λ x. x.1) h)
replaced_at none false name f s t e h = cc (ap (λ x. x.0) h)
replaced_at (some (directory d)) false name f s t e h = cc (ap (λ x. x.0) h)
replaced_at (some other) true name f s t e h = cc (ap (λ x. x.0) h)
replaced_at (some other) false name f s t e h = cc (ap (λ x. x.0) h)

pub after-ok :
    {A : Type 0} (r : Result StoreError (Unit {0})) (f : Store → Outcome A) (s t : Store) (a : A)
    → after r f s ≡ (ok a, t)
    → (r ≡ ok tt) × (f s ≡ (ok a, t))
unfolding after
after-ok (ok tt) f s t a h = (refl, h)
after-ok (err e) f s t a h = cc (ap (λ x. x.0) h)

both_ok : (q r : Result StoreError (Unit {0})) → (q >> r) ≡ ok tt → (q ≡ ok tt) × (r ≡ ok tt)
both_ok (ok tt) r h = (refl, h)
both_ok (err e) r h = cc

module _ (codec : StoreCodec) where
  scope_current :
      (scope : SessionScope)
      → check_scope codec scope ≡ ok tt
      → (scope.schema_version == session_scope_schema_version) ≡ true
  unfolding check_scope
  scope_current scope h = elim (Bool-cases (scope.schema_version == session_scope_schema_version)) [
    | inl e ↦ e
    | inr e ↦ cc (rw e at h)
  ]

  -- If its JSON reads back, a profile of the current schema that was saved is
  -- loaded as it was, whatever stood there before; the session scope under its name and all that
  -- stands under other names are as before.
  pub load-save :
      (written : Bool) (p : Profile) (s t : Store)
      → ReadsProfile codec p
      → p.schema_version ≡ profile_schema_version
      → save codec written p s ≡ (ok tt, t)
      → (load codec p.name t ≡ ok p)
        × (load_session_scope codec p.name t ≡ load_session_scope codec p.name s)
        × ((k : String) → k ≢ p.name → lookup k t ≡ lookup k s)
  unfolding load load_session_scope save check_profile text_of create_private_dir
  load-save written p s t reads current h =
      let (valid, done) = after-ok (checked_name p.name) _ s t tt h in
      let (d, found, same, was) = replaced_at (lookup p.name s) written p.name _ s t refl done in
      (
        rw (valid, found) (rw reads (ground (arith, current, eq_iff p.name p.name))),
        rw (found, was (λ e. e.session_scope_json) refl) refl,
        same,
      )

  -- If its JSON reads back, a session scope that was saved is loaded as it was; the profile under its name
  -- and all that stands under other names are as before.
  pub load_session_scope-save_session_scope :
      (written : Bool) (name : String) (scope : SessionScope) (s t : Store)
      → ReadsScope codec scope
      → save_session_scope codec written name scope s ≡ (ok tt, t)
      → (load_session_scope codec name t ≡ ok (some scope))
        × (load codec name t ≡ load codec name s)
        × ((k : String) → k ≢ name → lookup k t ≡ lookup k s)
  unfolding load load_session_scope save_session_scope check_scope text_of read_session_scope
      create_private_dir
  load_session_scope-save_session_scope written name scope s t reads h =
      let (valid, done) = after-ok _ _ s t tt h in
      let (d, found, same, was) = replaced_at (lookup name s) written name _ s t refl done in
      let (named, checked) = both_ok (checked_name name) (check_scope codec scope) valid in
      (
        rw (named, found) (rw reads (rw (scope_current scope checked) refl)),
        rw (found, was (λ e. e.profile_json) refl) refl,
        same,
      )
