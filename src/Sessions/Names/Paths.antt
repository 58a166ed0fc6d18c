-- ===== src/Sessions/Names/Paths.antt =====
-- `validate_rollout_path`, and the joining of an accepted path to a directory.
use Prim.Native.Char.{code}
use Prim.Native.String
use Prim.Native.String.{◌++◌}
use text.Mathlib.TextLemmas.{append_assoc}
use text.Mathlib.TextPositions.{starts_with-append}
use codex_shuttle.Prelude.{
  String, ◌≡◌, refl, ap, sym, ◌∙◌, inl, inr, Bool, true, false, not, ◌||◌, List, [], ◌∷◌,
  ◌++◌ as list_append, arith, ◌==◌, nat_eq, string_eq, if◌then◌else◌, any, Result, ok, err,
  Bool-cases,
}
use codex_shuttle.Prelude.Strings.{is_empty}
use codex_shuttle.Core.Paths.{join}
use codex_shuttle.Sessions.{SessionError, session_dirs}
use codex_shuttle.Sessions.Names.{
  Component, root_dir, cur_dir, parent_dir, normal, split_slash, piece_components, all_components,
  is_absolute, components, is_normal, is_session_dir, check_rollout_components,
  validate_rollout_path,
}

split_slash-cons :
    (s : String) → (piece : String) × (pieces : List String) × (split_slash s ≡ piece ∷ pieces)
unfolding split_slash
split_slash-cons String.[] = ("", [], refl)
split_slash-cons (String.◌∷◌ c s) =
    let (piece, pieces, same) = split_slash-cons s in
    elim (Bool-cases (code c == b'/')) [
      | inl slash ↦ ("", piece ∷ pieces, rw (slash, same) refl)
      | inr other ↦ (String.◌∷◌ c piece, pieces, rw (other, same) refl)
    ]

split_slash-append :
    (s t : String) → split_slash (s ++ "/" ++ t) ≡ list_append (split_slash s) (split_slash t)
unfolding split_slash
split_slash-append String.[] t =
    rw (String.append.nil String.[], String.append.nil, String.append.cons)
      (rw String.append.nil refl)
split_slash-append (String.◌∷◌ c s) t =
    let (piece, pieces, same) = split_slash-cons s in
    rw (String.append.cons, split_slash, split_slash-append s t, same)
      (elim (Bool-cases (code c == b'/')) [ inl slash ↦ rw slash refl | inr other ↦ rw other refl ])

piece_components-append :
    (ps qs : List String)
    → piece_components (list_append ps qs) ≡ list_append (piece_components ps) (piece_components qs)
unfolding piece_components
piece_components-append [] qs = refl
piece_components-append (p ∷ ps) qs = ground (arith, piece_components-append ps qs)

piece_components_blank : [] ≡ piece_components (split_slash "")
unfolding piece_components split_slash is_empty
piece_components_blank = refl

is_absolute_slash : (root : String) → is_absolute ("/" ++ root) ≡ true
unfolding is_absolute
is_absolute_slash root = starts_with-append "/" root

is_empty_slash : (root : String) → is_empty ("/" ++ root) ≡ false
unfolding is_empty
is_empty_slash root = rw String.append.cons refl

absolute_components :
    (root : String)
    → components ("/" ++ root) ≡ root_dir ∷ piece_components (split_slash ("/" ++ root))
unfolding components is_empty
absolute_components root = rw (components, is_absolute_slash root, is_empty_slash root) refl

-- The names of a path that has nothing but normal components.
abbrev pub normals : List String → List Component
normals [] = []
normals (name ∷ names) = normal name ∷ normals names

all_normal :
    (cs : List Component)
    → any (λ component. not (is_normal component)) cs ≡ false
    → (names : List String) × (cs ≡ normals names)
unfolding is_normal
all_normal [] h = ([], refl)
all_normal (normal name ∷ cs) h =
    let (names, same) = all_normal cs (ground arith) in
    (name ∷ names, ap (λ rest. normal name ∷ rest) same)
all_normal (root_dir ∷ cs) h = cc
all_normal (cur_dir ∷ cs) h = cc
all_normal (parent_dir ∷ cs) h = cc

-- A relative path without a leading dot has the components of its pieces.
relative_components :
    (path : String)
    → is_absolute path ≡ false
    → any (λ component. not (is_normal component)) (components path) ≡ false
    → components path ≡ piece_components (split_slash path)
unfolding components is_empty is_normal all_components
relative_components String.[] h k = piece_components_blank
relative_components (String.◌∷◌ c s) h k =
    let (piece, pieces, same) = split_slash-cons (String.◌∷◌ c s) in
    elim (Bool-cases (piece == ".")) [
      | inl dot ↦ cc (rw (components, h, same, dot) at k)
      | inr other ↦ rw (components, h, same, other) refl
    ]

components-join :
    (root path : String)
    → is_absolute path ≡ false
    → components (join ("/" ++ root) path)
      ≡ list_append (components ("/" ++ root)) (piece_components (split_slash path))
unfolding join is_absolute
components-join root path h =
    rw
      (
        h,
        append_assoc "/" root ("/" ++ path),
        absolute_components (root ++ "/" ++ path),
        ← append_assoc "/" root ("/" ++ path),
        split_slash-append ("/" ++ root) path,
        piece_components-append,
        absolute_components root,
      )
      refl

session_first :
    (path : String) (cs : List Component) (names : List String)
    → check_rollout_components path cs ≡ ok tt
    → cs ≡ normals names
    → (dir : String) × (others : List String) × (any (λ known. dir == known) session_dirs ≡ true)
      × (cs ≡ normals (dir ∷ others))
unfolding check_rollout_components is_session_dir
session_first path cs [] h same = cc (rw (same) at h)
session_first path cs (dir ∷ others) h same =
    let checked = rw same at h in (dir, others, ground (arith, checked), same)

or-ok :
    (a b : Bool) (e : SessionError) (r : Result SessionError (Unit {0}))
    → (if a || b then err e else r) ≡ ok tt
    → (a ≡ false) × (b ≡ false) × (r ≡ ok tt)
or-ok true b e r h = cc
or-ok false true e r h = cc
or-ok false false e r h = (refl, refl, h)

-- An accepted path, joined to an absolute directory, names a place below that directory: its
-- components are those of the directory and then names only, the first of which is `sessions` or
-- `archived_sessions`. No name is a parent directory, so nothing leads out again.
pub validate_rollout_path-join :
    (root path : String)
    → validate_rollout_path path ≡ ok tt
    → (dir : String) × (names : List String) × (any (λ known. dir == known) session_dirs ≡ true)
      × (components (join ("/" ++ root) path)
          ≡ list_append (components ("/" ++ root)) (normals (dir ∷ names)))
unfolding validate_rollout_path
validate_rollout_path-join root path h =
    let (relative, plain, checked) =
      or-ok _ (any (λ component. not (is_normal component)) (components path)) _ _ h in
    let (names, same) = all_normal (components path) plain in
    let (dir, others, known, parts) = session_first path (components path) names checked same in
    (
      dir,
      others,
      known,
      components-join root path relative
          ∙ ap (list_append (components ("/" ++ root)))
              (sym (relative_components path relative plain) ∙ parts),
    )
