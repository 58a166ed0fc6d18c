-- ===== src/Ssh/Render/Refines.antt =====
-- `render_host` and the lines of its block.
use text.Mathlib.TextEquality.{eq_iff}
use codex_shuttle.Prelude.{
  String, ◌≡◌, refl, sym, ap, ◌∙◌, err, inl, inr, true, List, [], ◌∷◌, map, arith, ◌==◌, string_eq,
  if◌then◌else◌, any-append, guard, all, all-append, All, All-append, ok, err, Bool-cases,
  >>=-eq-ok, or_fail-eq-ok, guard-eq-ok,
}
use codex_shuttle.Prelude.Strings.{codes, split_lines}
use codex_shuttle.Prelude.Strings.Lines.{
  IsLine, IsLine-append, codes-append, unlines, split_lines-unlines,
}
use codex_shuttle.Core.Profile.{
  Profile, ProfileStatus, prepared, installed, ready, broken, status_text,
}
use codex_shuttle.Ssh.{forbidden_control_character, source_host_mismatch, missing_value}
use codex_shuttle.Ssh.Quote.RoundTrip.{reject_newline-IsLine, quoted-IsLine}
use codex_shuttle.Ssh.Snapshot.{SshSnapshot, first_value, required_value}
use codex_shuttle.Ssh.Render.{is_raw, rendered_keys, render_host}
use codex_shuttle.Ssh.Render.Block.{
  is_acceptable, own_values, name_of, written, directive_line, key_lines, concat_map, own_command,
  proxy_line, accepted, reject_newline-eq,
}
use codex_shuttle.Ssh.Render.Lines.{
  Identity, IsIdentity, header_lines, values, value_lines, block_values, block_lines, keys-IsKnown,
  render_host-eq,
}

acceptable-IsLine : (value : String) → is_acceptable value ≡ true → IsLine value
acceptable-IsLine value h = reject_newline-IsLine value (rw (reject_newline-eq value, h) refl)

written-IsLine : (key value : String) → IsLine value → IsLine (written key value)
unfolding written
written-IsLine key value h = elim (Bool-cases (is_raw key)) [
  | inl raw ↦ rw raw h
  | inr other ↦ rw other (quoted-IsLine value h)
]

values-IsLine :
    (key name : String) (vs : List String)
    → IsLine name
    → all is_acceptable vs ≡ true
    → All IsLine (map (λ value. directive_line name (written key value)) vs)
unfolding codes
values-IsLine key name [] h hs = tt
values-IsLine key name (value ∷ vs) h hs = (
  simp (
    codes-append,
    any-append,
    h,
    written-IsLine key value (acceptable-IsLine value (ground arith)),
  ),
  values-IsLine key name vs h (ground arith),
)

keys-IsLine :
    (snapshot : SshSnapshot) (keys : List String)
    → All (λ key. IsLine (name_of key)) keys
    → all is_acceptable (concat_map (own_values snapshot) keys) ≡ true
    → All IsLine (concat_map (key_lines snapshot) keys)
keys-IsLine snapshot [] h hs = tt
keys-IsLine snapshot (key ∷ keys) (h, hs) good =
    let both = rw all-append at good in
    All-append IsLine _ _
      (values-IsLine key (name_of key) (own_values snapshot key) h (ground (arith, both)))
      (keys-IsLine snapshot keys hs (ground (arith, both)))

command-IsLine : (cs : List String) → all is_acceptable cs ≡ true → All IsLine (map proxy_line cs)
unfolding codes
command-IsLine [] h = tt
command-IsLine (c ∷ cs) h = (
  IsLine-append "  ProxyCommand " c refl (acceptable-IsLine c (ground arith)),
  command-IsLine cs (ground arith),
)

value_lines-IsLine :
    (snapshot : SshSnapshot) (keys : List String)
    → All (λ key. IsLine (name_of key)) ("identityfile" ∷ keys)
    → all is_acceptable (values snapshot keys) ≡ true
    → All IsLine (value_lines snapshot keys)
unfolding codes
value_lines-IsLine snapshot keys (file, names) good =
    let parts = rw (all-append, all-append) at good in
    All-append IsLine _ _ (keys-IsLine snapshot keys names (ground (arith, parts))) (
      All-append IsLine _ _
        (values-IsLine "identityfile" _ (own_values snapshot "identityfile") file
          (ground (arith, parts)))
        (All-append IsLine _ _
          (command-IsLine (own_command (first_value snapshot.values "proxycommand"))
            (ground (arith, parts)))
          (refl, tt)))

status-IsLine : (status : ProfileStatus) → IsLine (status_text status)
unfolding status_text codes
status-IsLine prepared = refl
status-IsLine installed = refl
status-IsLine ready = refl
status-IsLine broken = refl

-- The profile's own texts stand on one line.
abbrev pub IsPrintable : Profile → Type 0
IsPrintable profile = IsLine profile.name × IsLine profile.source_host × IsLine profile.app_alias

header_lines-IsLine :
    (profile : Profile) (given : Identity)
    → IsPrintable profile
    → all is_acceptable (given.hostname ∷ given.user ∷ given.port ∷ []) ≡ true
    → All IsLine (header_lines profile given)
unfolding codes
header_lines-IsLine profile given (name, host, alias) good = (
  simp (codes-append, any-append, name, host, status-IsLine profile.status),
  (
    simp (codes-append, alias),
    (
      simp (
        codes-append,
        quoted-IsLine given.hostname (acceptable-IsLine given.hostname (ground arith)),
      ),
      (
        simp (codes-append, quoted-IsLine given.user (acceptable-IsLine given.user (ground arith))),
        (
          simp (
            codes-append,
            quoted-IsLine given.port (acceptable-IsLine given.port (ground arith)),
          ),
          tt,
        ),
      ),
    ),
  ),
)

render_host-ok :
    (profile : Profile) (snapshot : SshSnapshot) (out : String)
    → render_host profile snapshot ≡ ok out
    → (given : Identity) × ((profile.source_host == snapshot.source_host) ≡ true)
      × IsIdentity snapshot given
unfolding render_host required_value
render_host-ok profile snapshot out h =
    let (u, same, h₁) =
      >>=-eq-ok (guard (profile.source_host == snapshot.source_host) source_host_mismatch) _ h in
    let (hostname, hostname_eq, h₂) = >>=-eq-ok (required_value snapshot.values "hostname") _ h₁ in
    let (user, user_eq, h₃) = >>=-eq-ok (required_value snapshot.values "user") _ h₂ in
    let (port, port_eq, h₄) = >>=-eq-ok (required_value snapshot.values "port") _ h₃ in
    (
      record { hostname = hostname; user = user; port = port },
      guard-eq-ok _ source_host_mismatch same,
      (
        or_fail-eq-ok _ (missing_value "hostname") hostname_eq,
        or_fail-eq-ok _ (missing_value "user") user_eq,
        or_fail-eq-ok _ (missing_value "port") port_eq,
      ),
    )

accepted-ok :
    (vs : List String) (text out : String)
    → accepted vs text ≡ ok out
    → (all is_acceptable vs ≡ true) × (text ≡ out)
accepted-ok vs text out h = elim (Bool-cases (all is_acceptable vs)) [
  | inl good ↦ (good, ground (arith, rw good at h))
  | inr bad ↦ cc (rw bad at h)
]

block_lines-IsLine :
    (profile : Profile) (snapshot : SshSnapshot) (given : Identity)
    → IsPrintable profile
    → all is_acceptable (block_values snapshot given) ≡ true
    → All IsLine (block_lines profile snapshot given)
block_lines-IsLine profile snapshot given printable good =
    All-append IsLine (header_lines profile given) _
      (header_lines-IsLine profile given printable (ground arith))
      (value_lines-IsLine snapshot rendered_keys keys-IsKnown.1 (ground arith))

-- What `render_host` returns for a profile whose own texts stand on one line reads back, line by
-- line, as exactly the block of the profile: the snapshot has a host name, a user and a port, and no
-- value, whatever its text, adds or splits a line.
pub render_host-block_lines :
    (profile : Profile) (snapshot : SshSnapshot) (out : String)
    → IsPrintable profile
    → render_host profile snapshot ≡ ok out
    → (given : Identity) × IsIdentity snapshot given
      × (split_lines out ≡ block_lines profile snapshot given)
render_host-block_lines profile snapshot out printable h =
    let (given, same, identity) = render_host-ok profile snapshot out h in
    let (good, text) =
      accepted-ok (block_values snapshot given) _ out
        (sym (render_host-eq profile snapshot given same identity) ∙ h) in
    (
      given,
      identity,
      ap split_lines (sym text)
          ∙ split_lines-unlines (block_lines profile snapshot given)
              (block_lines-IsLine profile snapshot given printable good),
    )

-- A snapshot of the profile's host that has a host name, a user and a port renders exactly when
-- none of the written values holds a forbidden character; else the error says so.
pub render_host-accepted :
    (profile : Profile) (snapshot : SshSnapshot) (given : Identity)
    → profile.source_host ≡ snapshot.source_host
    → IsIdentity snapshot given
    → render_host profile snapshot ≡ (
        if all is_acceptable (block_values snapshot given)
        then ok (unlines (block_lines profile snapshot given))
        else err forbidden_control_character)
render_host-accepted profile snapshot given same identity =
    render_host-eq profile snapshot given ((eq_iff _ _).1 same) identity
