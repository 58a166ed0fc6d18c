-- ===== src/Ssh/Snapshot/Resolve.antt =====
-- `SshSnapshot::resolve`, followed by `render_host`.
use codex_shuttle.Prelude.{
  String, ◌≡◌, refl, sym, subst, ap, ◌∙◌, inl, inr, Bool, true, List, [], ◌∷◌, Option, none, some,
  arith, ◌==◌, string_eq, all, all-append, ok, guard, or_fail, Bool-cases, Option-cases, >>=-eq-ok,
  or_fail-eq-ok,
}
use codex_shuttle.Prelude.Assoc.{lookup}
use codex_shuttle.Prelude.Strings.{split_lines, trim}
use codex_shuttle.Prelude.Strings.Lines.{unlines}
use codex_shuttle.Core.Profile.{Profile}
use codex_shuttle.Ssh.{Output, Ssh, command_failed, not_utf8, missing_value}
use codex_shuttle.Ssh.Snapshot.{
  SshSnapshot, Values, first, first_value, required_value, checked_host, parse_ssh_g, parse_output,
  resolve_ssh_values, resolve_inherited_ssh_values, resolve,
}
use codex_shuttle.Ssh.Snapshot.Parse.{values_of, listed, parse_ssh_g-values_of}
use codex_shuttle.Ssh.Render.{is_inherited, not_inherited, rendered_keys, render_host}
use codex_shuttle.Ssh.Render.Block.{is_acceptable, filter, own_values, own_command, concat_map}
use codex_shuttle.Ssh.Render.Lines.{Identity, IsIdentity, values, block_values, block_lines}
use codex_shuttle.Ssh.Render.Refines.{render_host-accepted}

-- No value of the map holds a forbidden character.
abbrev pub IsClean : Values → Type 0
IsClean values =
    (key : String) (items : List String)
    → lookup key values ≡ some items
    → all is_acceptable items ≡ true

listed-some : (values items : List String) → listed values ≡ some items → values ≡ items
unfolding listed
listed-some [] items h = cc
listed-some (value ∷ more) items h = ground arith

parse_ssh_g-IsClean :
    (text : String) (values : Values) → parse_ssh_g text ≡ ok values → IsClean values
parse_ssh_g-IsClean text values h key items found =
    let (listed_eq, good) = parse_ssh_g-values_of text values key h in
    let same = listed-some (values_of key (split_lines text)) items (sym listed_eq ∙ found) in
    ap (all is_acceptable) (sym same) ∙ good

parse_output-IsClean :
    (output : Option Output) (values : Values) → parse_output output ≡ ok values → IsClean values
unfolding parse_output
parse_output-IsClean none values h = cc
parse_output-IsClean (some output) values h =
    let (u, succeeded, rest) =
      >>=-eq-ok (guard output.success (command_failed (trim output.stderr))) _ h in
    let (text, decoded, parsed) = >>=-eq-ok (or_fail output.stdout not_utf8) parse_ssh_g rest in
    parse_ssh_g-IsClean text values parsed

module _ (p : String → Bool) where
  all-filter : (q : String → Bool) (vs : List String) → all p vs ≡ true → all p (filter q vs) ≡ true
  all-filter q [] h = refl
  all-filter q (v ∷ vs) h = ground (arith, all-filter q vs (ground arith))

  all-not_inherited :
      (inherited : Option (List String)) (vs : List String)
      → all p vs ≡ true
      → all p (not_inherited inherited vs) ≡ true
  unfolding not_inherited
  all-not_inherited inherited [] h = refl
  all-not_inherited none (v ∷ vs) h = ground (arith, all-not_inherited none vs (ground arith))
  all-not_inherited (some items) (v ∷ vs) h =
      ground (arith, all-not_inherited (some items) vs (ground arith))

first-acceptable :
    (values : List String) (value : String)
    → all is_acceptable values ≡ true
    → first values ≡ some value
    → is_acceptable value ≡ true
unfolding first
first-acceptable [] value good h = cc
first-acceptable (v ∷ vs) value good h =
    let same : v ≡ value = ground arith in ap is_acceptable (sym same) ∙ ground arith

module _ (snapshot : SshSnapshot) (clean : IsClean snapshot.values) where
  own_values-acceptable : (key : String) → all is_acceptable (own_values snapshot key) ≡ true
  unfolding own_values
  own_values-acceptable key = elim (Option-cases (lookup key snapshot.values)) [
    | inl absent ↦ rw (own_values, absent) refl
    | inr (values, present) ↦
        let good = clean key values present in
        rw (own_values, present)
          (elim (Bool-cases (is_inherited (lookup key snapshot.inherited_values) values)) [
            | inl same ↦ rw same refl
            | inr other ↦ rw other (elim (Bool-cases (key == "identityfile")) [
              | inl file ↦
                  rw file
                    (all-filter is_acceptable _ _ (all-not_inherited is_acceptable _ values good))
              | inr setting ↦ rw setting (all-filter is_acceptable _ _ good)
            ])
          ])
  ]

  keys-acceptable :
      (keys : List String) → all is_acceptable (concat_map (own_values snapshot) keys) ≡ true
  keys-acceptable [] = refl
  keys-acceptable (key ∷ keys) =
      rw (all-append, own_values-acceptable key, keys-acceptable keys) refl

  first_value-acceptable :
      (key value : String)
      → first_value snapshot.values key ≡ some value
      → is_acceptable value ≡ true
  unfolding first_value first
  first_value-acceptable key value h = elim (Option-cases (lookup key snapshot.values)) [
    | inl absent ↦ cc (rw (first_value, absent) at h)
    | inr (values, present) ↦
        first-acceptable values value (clean key values present) (rw (first_value, present) at h)
  ]

  command-acceptable :
      all is_acceptable (own_command (first_value snapshot.values "proxycommand")) ≡ true
  command-acceptable = elim (Option-cases (first_value snapshot.values "proxycommand")) [
    | inl absent ↦ rw absent refl
    | inr (command, present) ↦
        rw present (ground (arith, first_value-acceptable "proxycommand" command present))
  ]

  values-acceptable : (keys : List String) → all is_acceptable (values snapshot keys) ≡ true
  values-acceptable keys =
      rw
        (
          all-append is_acceptable,
          keys-acceptable keys,
          all-append is_acceptable,
          own_values-acceptable "identityfile",
          command-acceptable,
        )
        refl

  block_values-acceptable :
      (given : Identity)
      → IsIdentity snapshot given
      → all is_acceptable (block_values snapshot given) ≡ true
  block_values-acceptable given (hostname, user, port) =
      rw
        (
          first_value-acceptable "hostname" _ hostname,
          first_value-acceptable "user" _ user,
          first_value-acceptable "port" _ port,
        )
        (values-acceptable rendered_keys)

resolve-ok :
    (ssh : Ssh) (host : String) (snapshot : SshSnapshot)
    → resolve ssh host ≡ ok snapshot
    → (snapshot.source_host ≡ host)
      × IsClean snapshot.values
      × ((given : Identity) × IsIdentity snapshot given)
unfolding resolve resolve_ssh_values required_value
resolve-ok ssh host snapshot h =
    let (u, valid, h₁) = >>=-eq-ok (checked_host host) _ h in
    let (found, parsed, h₂) = >>=-eq-ok (resolve_ssh_values ssh host) _ h₁ in
    let (hostname, hostname_eq, h₃) = >>=-eq-ok (required_value found "hostname") _ h₂ in
    let (user, user_eq, h₄) = >>=-eq-ok (required_value found "user") _ h₃ in
    let (port, port_eq, h₅) = >>=-eq-ok (required_value found "port") _ h₄ in
    let (inherited, probed, h₆) = >>=-eq-ok (resolve_inherited_ssh_values ssh found) _ h₅ in
    let same : record { source_host = host; values = found; inherited_values = inherited }
        ≡ snapshot =
      ground (arith, h₆) in
    subst
      (λ s. (s.source_host ≡ host) × IsClean s.values × ((given : Identity) × IsIdentity s given))
      same
      (
        refl,
        parse_output-IsClean _ found parsed,
        (
          record { hostname = hostname; user = user; port = port },
          (
            or_fail-eq-ok _ (missing_value "hostname") hostname_eq,
            or_fail-eq-ok _ (missing_value "user") user_eq,
            or_fail-eq-ok _ (missing_value "port") port_eq,
          ),
        ),
      )

-- Whatever `ssh -G` prints, a snapshot that `resolve` returns can be rendered for every profile of
-- that host: `render_host` neither lacks a value nor meets a forbidden character, and its text is
-- the profile's block.
pub resolve-render_host :
    (ssh : Ssh) (host : String) (snapshot : SshSnapshot) (profile : Profile)
    → resolve ssh host ≡ ok snapshot
    → profile.source_host ≡ host
    → (given : Identity) × IsIdentity snapshot given
      × (render_host profile snapshot ≡ ok (unlines (block_lines profile snapshot given)))
resolve-render_host ssh host snapshot profile h same =
    let (source, clean, (given, identity)) = resolve-ok ssh host snapshot h in
    (
      given,
      identity,
      render_host-accepted profile snapshot given (same ∙ sym source) identity
          ∙ rw (block_values-acceptable snapshot clean given identity) refl,
    )
