-- ===== src/Bridge/Arguments.antt =====
-- crates/cxs-bridge/src/lib.rs: `app_server_arguments`, the filter on the App Server options that a
-- remote client may choose.
use text.Mathlib.Text.{starts_with}
use text.Mathlib.TextEquality.{eq_iff}
use codex_shuttle.Prelude.{
  String, ◌≡◌, refl, sym, subst, ◌⊎◌, inl, inr, Bool, true, false, ◌||◌, List, [], ◌∷◌, ◌==◌,
  string_eq, if◌then◌else◌, any, arith, ok, err, ◌>>=◌, >>=-eq-ok,
}
use codex_shuttle.Bridge.Errors.{Fallible, missing_value, unsupported_argument}

-- What an argument is to the filter, in the order of the arms of the `match`.
pub data ArgumentClass : Type 0 where
  dropped dropped_with_value kept_with_value kept refused : ArgumentClass

unfoldable pub takes_value : String → Bool
takes_value a =
    a == "-c" || a == "--config" || a == "--enable" || a == "--disable" || a == "--code-mode-host"

unfoldable pub is_flag : String → Bool
is_flag a = a == "--strict-config" || a == "--analytics-default-enabled"

unfoldable pub is_joined : String → Bool
is_joined a =
    starts_with a "--config="
    || starts_with a "--enable="
    || starts_with a "--disable="
    || starts_with a "--code-mode-host="

unfoldable pub is_foreign : String → Bool
is_foreign a =
    starts_with a "--ws-"
    || a == "daemon"
    || a == "proxy"
    || a == "generate-ts"
    || a == "generate-json-schema"
    || a == "help"
    || a == "--help"
    || a == "-h"

unfoldable pub classify : String → ArgumentClass
unfolding takes_value is_flag is_joined is_foreign
classify a =
    if a == "--stdio"
    then dropped
    else if a == "--listen"
    then dropped_with_value
    else if takes_value a
    then kept_with_value
    else if is_flag a
    then kept
    else if starts_with a "--listen="
    then dropped
    else if is_foreign a
    then refused
    else if is_joined a
    then kept
    else refused

-- The loop over the arguments, from an index on.
unfoldable pub forward : List String → Fallible (List String)
forward [] = ok []
forward (a ∷ []) = elim (classify a) [
  | dropped ↦ ok []
  | dropped_with_value ↦ err (missing_value a)
  | kept_with_value ↦ err (missing_value a)
  | kept ↦ ok (a ∷ [])
  | refused ↦ err (unsupported_argument a)
]
forward (a ∷ v ∷ rest) = elim (classify a) [
  | dropped ↦ forward (v ∷ rest)
  | dropped_with_value ↦ forward rest
  | kept_with_value ↦ (forward rest >>= λ more. ok (a ∷ v ∷ more))
  | kept ↦ (forward (v ∷ rest) >>= λ more. ok (a ∷ more))
  | refused ↦ err (unsupported_argument a)
]

unfoldable pub app_server_arguments : List String → Fallible (List String)
unfolding forward
app_server_arguments arguments = do forwarded ← forward arguments; ok ("app-server" ∷ forwarded)

-- The options that may be forwarded, as the App Server spells them.
abbrev pub options_with_value : List String
options_with_value = "-c" ∷ "--config" ∷ "--enable" ∷ "--disable" ∷ "--code-mode-host" ∷ []

abbrev pub options : List String
options = "--strict-config" ∷ "--analytics-default-enabled" ∷ []

abbrev pub prefixes : List String
prefixes = "--config=" ∷ "--enable=" ∷ "--disable=" ∷ "--code-mode-host=" ∷ []

abbrev pub Among : String → List String → Type 0
Among a names = any (λ name. a == name) names ≡ true

-- The arguments, and what is left of them: the choice of a transport goes, the named options stay in
-- their places with their values, and there is nothing else.
pub data Filtered : List String → List String → Type 0 where
  done : Filtered [] []
  stdio : (args out : List String) → Filtered args out → Filtered ("--stdio" ∷ args) out
  listen :
      (v : String) (args out : List String)
      → Filtered args out
      → Filtered ("--listen" ∷ v ∷ args) out
  listen_joined :
      (a : String) (args out : List String)
      → starts_with a "--listen=" ≡ true
      → Filtered args out
      → Filtered (a ∷ args) out
  valued :
      (a v : String) (args out : List String)
      → Among a options_with_value
      → Filtered args out
      → Filtered (a ∷ v ∷ args) (a ∷ v ∷ out)
  option :
      (a : String) (args out : List String)
      → Among a options
      → Filtered args out
      → Filtered (a ∷ args) (a ∷ out)
  joined :
      (a : String) (args out : List String)
      → any (starts_with a) prefixes ≡ true
      → Filtered args out
      → Filtered (a ∷ args) (a ∷ out)

-- What each class says of an argument.
Means : ArgumentClass → String → Type 0
Means dropped a = (a ≡ "--stdio") ⊎ (starts_with a "--listen=" ≡ true)
Means dropped_with_value a = a ≡ "--listen"
Means kept_with_value a = Among a options_with_value
Means kept a = Among a options ⊎ (any (starts_with a) prefixes ≡ true)
Means refused a = Unit {0}

branch-Means :
    (b : Bool) (a : String) (c d : ArgumentClass)
    → (b ≡ true → Means c a)
    → Means d a
    → Means (if b then c else d) a
branch-Means true a c d h k = h refl
branch-Means false a c d h k = k

classify-Means : (a : String) → Means (classify a) a
unfolding classify Means takes_value is_flag is_joined
classify-Means a =
    branch-Means (a == "--stdio") a dropped _ (λ h. inl ((eq_iff a "--stdio").0 h))
      (branch-Means (a == "--listen") a dropped_with_value _ (λ h. (eq_iff a "--listen").0 h)
        (branch-Means (takes_value a) a kept_with_value _ (λ h. ground arith)
          (branch-Means (is_flag a) a kept _ (λ h. inl (ground arith))
            (branch-Means (starts_with a "--listen=") a dropped _ (λ h. inr h)
              (branch-Means (is_foreign a) a refused _ (λ h. tt)
                (branch-Means (is_joined a) a kept refused (λ h. inr (ground arith)) tt))))))

-- The rest of the arguments, once the first is known to be of a class.
silent-Filtered :
    (a : String) (args out : List String)
    → Means dropped a
    → Filtered args out
    → Filtered (a ∷ args) out
unfolding Means
silent-Filtered a args out (inl e) f =
    subst (λ s. Filtered (s ∷ args) out) (sym e) (stdio args out f)
silent-Filtered a args out (inr e) f = listen_joined a args out e f

kept-Filtered :
    (a : String) (args out : List String)
    → Means kept a
    → Filtered args out
    → Filtered (a ∷ args) (a ∷ out)
unfolding Means
kept-Filtered a args out (inl e) f = option a args out e f
kept-Filtered a args out (inr e) f = joined a args out e f

single-Filtered :
    (a : String) (c : ArgumentClass) (out : List String)
    → classify a ≡ c
    → Means c a
    → forward (a ∷ []) ≡ ok out
    → Filtered (a ∷ []) out
unfolding forward
single-Filtered a dropped out e m h =
    subst (Filtered (a ∷ [])) (cc (rw (e, forward) at h)) (silent-Filtered a [] [] m done)
single-Filtered a dropped_with_value out e m h = cc (rw (e, forward) at h)
single-Filtered a kept_with_value out e m h = cc (rw (e, forward) at h)
single-Filtered a kept out e m h =
    subst (Filtered (a ∷ [])) (cc (rw (e, forward) at h)) (kept-Filtered a [] [] m done)
single-Filtered a refused out e m h = cc (rw (e, forward) at h)

pair-Filtered :
    (a v : String) (rest : List String) (c : ArgumentClass) (out : List String)
    → ((o : List String) → forward rest ≡ ok o → Filtered rest o)
    → ((o : List String) → forward (v ∷ rest) ≡ ok o → Filtered (v ∷ rest) o)
    → classify a ≡ c
    → Means c a
    → forward (a ∷ v ∷ rest) ≡ ok out
    → Filtered (a ∷ v ∷ rest) out
unfolding forward Means
pair-Filtered a v rest dropped out f g e m h =
    silent-Filtered a (v ∷ rest) out m (g out (rw (e, forward) at h))
pair-Filtered a v rest dropped_with_value out f g e m h =
    subst (λ s. Filtered (s ∷ v ∷ rest) out) (sym m)
      (listen v rest out (f out (rw (e, forward) at h)))
pair-Filtered a v rest kept_with_value out f g e m h =
    let (more, r, same) = >>=-eq-ok (forward rest) (λ x. ok (a ∷ v ∷ x)) (rw (e, forward) at h) in
    subst (Filtered (a ∷ v ∷ rest)) (cc same) (valued a v rest more m (f more r))
pair-Filtered a v rest kept out f g e m h =
    let (more, r, same) = >>=-eq-ok (forward (v ∷ rest)) (λ x. ok (a ∷ x)) (rw (e, forward) at h) in
    subst (Filtered (a ∷ v ∷ rest)) (cc same) (kept-Filtered a (v ∷ rest) more m (g more r))
pair-Filtered a v rest refused out f g e m h = cc (rw (e, forward) at h)

forward-Filtered : (args out : List String) → forward args ≡ ok out → Filtered args out
unfolding forward
forward-Filtered [] out h = subst (Filtered []) (cc) done
forward-Filtered (a ∷ []) out h = single-Filtered a (classify a) out refl (classify-Means a) h
forward-Filtered (a ∷ v ∷ rest) out h =
    pair-Filtered a v rest (classify a) out (forward-Filtered rest) (forward-Filtered (v ∷ rest))
      refl (classify-Means a) h

-- What the filter accepts, it forwards behind "app-server" in the same order: the options of three
-- lists of names, with their values, and all of them; the arguments that choose a transport are left
-- out, and no other argument is accepted.
pub app_server_arguments-Filtered :
    (args out : List String)
    → app_server_arguments args ≡ ok out
    → (rest : List String) × (out ≡ "app-server" ∷ rest) × Filtered args rest
unfolding app_server_arguments
app_server_arguments-Filtered args out h =
    let (rest, r, same) = >>=-eq-ok (forward args) (λ x. ok ("app-server" ∷ x)) h in
    (rest, cc same, forward-Filtered args rest r)
