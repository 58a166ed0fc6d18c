-- ===== src/Bridge/Rewrite/Environments.antt =====
-- The environments in what `rewrite_client_message` returns.
use mathlib.Core.Path.{subst}
use text.Mathlib.TextEquality.{eq_iff}
use codex_shuttle.Prelude.{
  String, ◌≡◌, sym, ap, ◌∙◌, ◌≢◌, ◌⊎◌, inl, inr, Option, none, some, arith, string_eq, ok,
  >>=-eq-ok, Option-cases,
}
use codex_shuttle.Json.{
  Value, Fields, null, object, end, get, get_str, get_field, insert_field, remove_field, as_object,
  then_str,
}
use codex_shuttle.Json.Laws.{get_field-insert, get_field-remove}
use codex_shuttle.Core.Profile.{Profile}
use codex_shuttle.Bridge.Errors.{Fallible}
use codex_shuttle.Bridge.Rewrite.{
  Method, thread_start, turn_start, entry_object, object_field_in, with_object_field, environments,
  set_environment, cwd_of, rewrite_thread_start, rewrite_turn_start, rewrite_method, rewrite_value,
  method_of,
}

abbrev params_in : Option Value → Fields
params_in (some (object ps)) = ps
params_in _ = end

-- The parameters of a message: an absent or null field counts as the empty object.
abbrev pub params_of : Value → Fields
params_of (object fs) = params_in (get_field "params" fs)
params_of _ = end

entry_object-ok :
    (o : Option Value) (name : String) {ps : Fields}
    → entry_object o name ≡ ok ps
    → ps ≡ params_in o
unfolding entry_object
entry_object-ok none name h = ground arith
entry_object-ok (some null) name h = ground arith
entry_object-ok (some (object fs)) name h = ground arith
entry_object-ok (some _) name h = cc

params_insert : (ps fs : Fields) → params_of (object (insert_field "params" (object ps) fs)) ≡ ps
params_insert ps fs = ap params_in (get_field-insert "params" "params" (object ps) fs)

other_insert :
    (k : String) (v : Value) (fs : Fields)
    → k ≢ "params"
    → get k (object (insert_field "params" v fs)) ≡ get k (object fs)
unfolding get
other_insert k v fs n = ground (arith, get_field-insert "params" k v fs, eq_iff "params" k)

-- What a successful change of the parameters by `f` does: the new parameters are `f` of the old
-- ones, and every other field of the message is as it was.
abbrev pub Changes : (Fields → Fallible Fields) → Value → Value → Type 0
Changes f m m' =
    (f (params_of m) ≡ ok (params_of m')) × ((k : String) → k ≢ "params" → get k m' ≡ get k m)

pub with_params :
    (f : Fields → Fallible Fields) (m m' : Value)
    → with_object_field "params" f m ≡ ok m'
    → Changes f m m'
unfolding with_object_field as_object
with_params f (object fs) m' h =
    let (ps, found, h₁) = >>=-eq-ok (object_field_in "params" fs) _ h in
    let (ps', changed, h₂) = >>=-eq-ok (f ps) _ h₁ in
    let old = entry_object-ok (get_field "params" fs) "params" (unfold object_field_in in found) in
    let new : object (insert_field "params" (object ps') fs) ≡ m' = cc in
    subst (Changes f (object fs)) new (
      subst (λ x. f x ≡ ok (params_of (object (insert_field "params" (object ps') fs)))) old
          (changed ∙ ap ok (sym (params_insert ps' fs))),
      λ k n. other_insert k (object ps') fs n,
    )
with_params f null m' h = cc
with_params f _ m' h = cc

-- The environment of a request that starts a thread or a turn, if it has one, is the profile's, at
-- the directory that the request names.
abbrev pub IsOwnEnvironment : Profile → Value → Type 0
IsOwnEnvironment profile m =
    ((cwd_of (params_of m) ≡ none) × (get_field "environments" (params_of m) ≡ none))
    ⊎ ((cwd : String) × (cwd_of (params_of m) ≡ some cwd)
        × (get_field "environments" (params_of m) ≡ some (environments profile cwd)))

set_environment_cwd :
    (profile : Profile) (cwd : String) (ps : Fields)
    → (cwd_of (set_environment profile cwd ps) ≡ cwd_of ps)
      × (get_field "environments" (set_environment profile cwd ps)
          ≡ some (environments profile cwd))
unfolding cwd_of set_environment
set_environment_cwd profile cwd ps = (
  ap then_str (get_field-insert "environments" "cwd" (environments profile cwd) ps),
  get_field-insert "environments" "environments" (environments profile cwd) ps,
)

remove_environments_cwd :
    (ps : Fields)
    → (cwd_of (remove_field "environments" ps) ≡ cwd_of ps)
      × (get_field "environments" (remove_field "environments" ps) ≡ none)
unfolding cwd_of
remove_environments_cwd ps = (
  ap then_str (get_field-remove "environments" "cwd" ps),
  get_field-remove "environments" "environments" ps,
)

abbrev pub IsStart : Method → Type 0
IsStart thread_start = Unit {0}
IsStart turn_start = Unit {0}
IsStart _ = ⊥

thread_start_own :
    (profile : Profile) (ps ps' : Fields)
    → rewrite_thread_start profile ps ≡ ok ps'
    → (cwd : String) × (cwd_of ps' ≡ some cwd)
      × (get_field "environments" ps' ≡ some (environments profile cwd))
unfolding rewrite_thread_start
thread_start_own profile ps ps' h = elim (Option-cases (cwd_of ps)) [
  | inl e ↦ cc (rw e at h)
  | inr (cwd, e) ↦
      let (same, own) = set_environment_cwd profile cwd ps in
      let done : set_environment profile cwd ps ≡ ps' = cc (rw e at h) in
      (cwd, rw (← done) (same ∙ e), rw (← done) own)
]

turn_start_own :
    (profile : Profile) (ps ps' : Fields)
    → rewrite_turn_start profile ps ≡ ok ps'
    → ((cwd_of ps' ≡ none) × (get_field "environments" ps' ≡ none))
      ⊎ ((cwd : String) × (cwd_of ps' ≡ some cwd)
          × (get_field "environments" ps' ≡ some (environments profile cwd)))
unfolding rewrite_turn_start
turn_start_own profile ps ps' h = elim (Option-cases (cwd_of ps)) [
  | inl e ↦
      let (same, gone) = remove_environments_cwd ps in
      let done : remove_field "environments" ps ≡ ps' = cc (rw (e, rewrite_turn_start) at h) in
      inl (rw (← done) (same ∙ e), rw (← done) gone)
  | inr (cwd, e) ↦
      let (same, own) = set_environment_cwd profile cwd ps in
      let done : set_environment profile cwd ps ≡ ps' = cc (rw (e, rewrite_turn_start) at h) in
      inr (cwd, rw (← done) (same ∙ e), rw (← done) own)
]

start_method :
    (method : Method) (profile : Profile) (id id' : Option Value) (m m' : Value)
    → IsStart method
    → rewrite_method method profile id m ≡ ok (m', id')
    → IsOwnEnvironment profile m' × ((k : String) → k ≢ "params" → get k m' ≡ get k m) × (id' ≡ id)
unfolding rewrite_method
start_method thread_start profile id id' m m' s h =
    let (w, changed, same) =
      >>=-eq-ok (with_object_field "params" (rewrite_thread_start profile) m) _ h in
    let e : w ≡ m' = cc in
    let (params, others) = with_params (rewrite_thread_start profile) m m' (rw (← e) changed) in
    (inr (thread_start_own profile (params_of m) (params_of m') params), others, cc)
start_method turn_start profile id id' m m' s h =
    let (w, changed, same) =
      >>=-eq-ok (with_object_field "params" (rewrite_turn_start profile) m) _ h in
    let e : w ≡ m' = cc in
    let (params, others) = with_params (rewrite_turn_start profile) m m' (rw (← e) changed) in
    (turn_start_own profile (params_of m) (params_of m') params, others, cc)
start_method Method.initialize profile id id' m m' s h = absurd s
start_method Method.thread_list profile id id' m m' s h = absurd s
start_method Method.other profile id id' m m' s h = absurd s

-- Whatever a client puts in a thread/start or turn/start request, the request that the bridge passes
-- on names either no environment and no directory, or exactly the profile's environment at the
-- request's own directory; every field beside the parameters, and the initialize id, are unchanged.
pub rewrite_value-IsOwnEnvironment :
    (profile : Profile) (id id' : Option Value) (m m' : Value)
    → IsStart (method_of (get_str "method" m))
    → rewrite_value profile id m ≡ ok (m', id')
    → IsOwnEnvironment profile m' × ((k : String) → k ≢ "params" → get k m' ≡ get k m) × (id' ≡ id)
unfolding rewrite_value
rewrite_value-IsOwnEnvironment profile id id' m m' s h =
    start_method (method_of (get_str "method" m)) profile id id' m m' s h
