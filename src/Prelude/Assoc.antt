-- ===== src/Prelude/Assoc.antt =====
-- `HashMap<String, V>` as an association list.
use text.Mathlib.TextEquality.{eq_iff}
use Prim.Native.String.{String}
use mathlib.Core.Path.{◌≡◌, refl}
use mathlib.Core.Option.{Option, none, some}
use mathlib.Core.List.{List, [], ◌∷◌}
use native.Mathlib.Omega.{arith}
use package.codex_shuttle.Prelude.Tests.{◌==◌, string_eq, if◌then◌else◌}

module _ {ℓ} {V : Type ℓ} where
  -- `HashMap::get`
  unfoldable pub lookup : String → List (String × V) → Option V
  lookup key [] = none
  lookup key ((name, value) ∷ others) = if name == key then some value else lookup key others

  -- `HashMap::insert`, in the place of an older entry.
  unfoldable pub insert : String → V → List (String × V) → List (String × V)
  insert key new [] = (key, new) ∷ []
  insert key new ((name, value) ∷ others) =
      let inserted = insert key new others in
      if name == key then (key, new) ∷ others else (name, value) ∷ inserted

  -- `HashMap::remove`
  unfoldable pub remove : String → List (String × V) → List (String × V)
  remove key [] = []
  remove key ((name, value) ∷ others) =
      let kept = remove key others in if name == key then kept else (name, value) ∷ kept

  pub lookup-insert :
      (key asked : String) (new : V) (entries : List (String × V))
      → lookup asked (insert key new entries)
        ≡ (if key == asked then some new else lookup asked entries)
  unfolding lookup insert
  lookup-insert key asked new [] = refl
  lookup-insert key asked new ((name, value) ∷ others) = ground (
    arith,
    lookup-insert key asked new others,
    eq_iff name asked,
    eq_iff name key,
    eq_iff key asked,
  )

  pub lookup-remove :
      (key asked : String) (entries : List (String × V))
      → lookup asked (remove key entries) ≡ (if key == asked then none else lookup asked entries)
  unfolding lookup remove
  lookup-remove key asked [] = ground arith
  lookup-remove key asked ((name, value) ∷ others) =
      ground (
        arith,
        lookup-remove key asked others,
        eq_iff name asked,
        eq_iff name key,
        eq_iff key asked,
      )
