-- ===== src/Ssh/Render/Lines.antt =====
-- The lines of a host's block, and `render_host` as one equation over them.
use Prim.Native.String.{◌++◌}
use text.Mathlib.TextLemmas.{append_assoc}
use codex_shuttle.Prelude.{
  String, ◌≡◌, refl, sym, inl, inr, Bool, true, false, not, List, [], ◌∷◌, ◌++◌ as list_append,
  none, some, map, arith, ◌==◌, string_eq, all, All, Result, ok, Bool-cases, ◌>>=◌, any,
  Option-cases, All-all,
}
use codex_shuttle.Prelude.Strings.{codes}
use codex_shuttle.Prelude.Strings.Lines.{is_break, IsLine, unlines, unlines-append}
use codex_shuttle.Prelude.Assoc.{lookup}
use codex_shuttle.Core.Profile.{Profile, status_text}
use codex_shuttle.Ssh.{SshError}
use codex_shuttle.Ssh.Quote.{quoted, quote_value}
use codex_shuttle.Ssh.Snapshot.{SshSnapshot, first_value, required_value}
use codex_shuttle.Ssh.Render.{
  directives, append_proxy_command, rendered_keys, host_header, append_keys, append_source_values,
  directive_name, render_host,
}
use codex_shuttle.Ssh.Render.Block.{
  is_acceptable, own_values, name_of, key_lines, concat_map, own_command, proxy_line, accepted,
  quote_value-eq, IsKnown, append_source_values-eq, accepted-bind, append_keys-eq,
  append_proxy_command-eq,
}

-- The identity of the host: its name, the user and the port.
pub record Identity : Type 0 where
  pub hostname : String
  pub user : String
  pub port : String

-- The snapshot has the three values.
abbrev pub IsIdentity : SshSnapshot → Identity → Type 0
IsIdentity snapshot given =
    (first_value snapshot.values "hostname" ≡ some given.hostname)
    × (first_value snapshot.values "user" ≡ some given.user)
    × (first_value snapshot.values "port" ≡ some given.port)

abbrev pub header_lines : Profile → Identity → List String
header_lines profile given =
    ("# profile="
      ++ profile.name
      ++ " source="
      ++ profile.source_host
      ++ " status="
      ++ status_text profile.status)
    ∷ ("Host " ++ profile.app_alias)
    ∷ ("  HostName " ++ quoted given.hostname)
    ∷ ("  User " ++ quoted given.user)
    ∷ ("  Port " ++ quoted given.port)
    ∷ []

header_assoc :
    (a n b h c st x d al e ho f u g po : String)
    → (a
        ++ n
        ++ b
        ++ h
        ++ c
        ++ st
        ++ (x ++ d)
        ++ al
        ++ (x ++ e)
        ++ ho
        ++ (x ++ f)
        ++ u
        ++ (x ++ g)
        ++ po
        ++ x)
      ≡ (a ++ n ++ b ++ h ++ c ++ st)
        ++ x
        ++ (d ++ al)
        ++ x
        ++ (e ++ ho)
        ++ x
        ++ (f ++ u)
        ++ x
        ++ (g ++ po)
        ++ x
header_assoc a n b h c st x d al e ho f u g po = simp append_assoc

host_header-lines :
    (profile : Profile) (given : Identity)
    → host_header profile (quoted given.hostname) (quoted given.user) (quoted given.port)
      ≡ unlines (header_lines profile given)
unfolding host_header unlines
host_header-lines profile given =
    header_assoc "# profile=" profile.name " source=" profile.source_host " status="
      (status_text profile.status) "\n" "Host " profile.app_alias "  HostName "
      (quoted given.hostname) "  User " (quoted given.user) "  Port " (quoted given.port)

is_known : String → Bool
is_known key = elim (lookup key directives) [
  | none ↦ false
  | some name ↦ not (any is_break (codes name))
]

is_known-IsKnown : (key : String) → is_known key ≡ true → IsKnown key × IsLine (name_of key)
unfolding is_known directive_name
is_known-IsKnown key h = elim (Option-cases (lookup key directives)) [
  | inl absent ↦ cc (rw (is_known, absent) at h)
  | inr (name, present) ↦
      let line = rw (is_known, present) at h in
      rw (directive_name, name_of, present) (refl, ground (arith, line))
]

keys-IsKnown_all : All (λ key. IsKnown key × IsLine (name_of key)) ("identityfile" ∷ rendered_keys)
unfolding is_known codes lookup
keys-IsKnown_all = All-all _ is_known is_known-IsKnown ("identityfile" ∷ rendered_keys) refl

accepted-last :
    (values : List String) (text last : String)
    → text ++ "  RequestTTY no\n" ≡ last
    → (accepted values text >>= λ commanded. ok (commanded ++ "  RequestTTY no\n"))
      ≡ accepted values last
accepted-last values text last h = rw (sym h) (elim (Bool-cases (all is_acceptable values)) [
  | inl good ↦ rw good refl
  | inr bad ↦ rw bad refl
])

unlines-end : unlines ("  RequestTTY no" ∷ []) ≡ "  RequestTTY no\n"
unfolding unlines
unlines-end = refl

module _ (snapshot : SshSnapshot) (keys : List String) where
  abbrev pub value_lines : List String
  value_lines = list_append (concat_map (key_lines snapshot) keys) (
      list_append (key_lines snapshot "identityfile") (
        list_append (map proxy_line (own_command (first_value snapshot.values "proxycommand")))
          ("  RequestTTY no" ∷ [])))

  abbrev pub values : List String
  values = list_append (concat_map (own_values snapshot) keys) (
      list_append (own_values snapshot "identityfile")
        (own_command (first_value snapshot.values "proxycommand")))

  append_all-eq :
      (text : String)
      → All IsKnown ("identityfile" ∷ keys)
      → (append_keys snapshot keys text >>= λ keyed.
          append_source_values snapshot "identityfile" keyed >>= λ files.
          append_proxy_command (first_value snapshot.values "proxycommand") files >>= λ commanded.
          ok (commanded ++ "  RequestTTY no\n"))
        ≡ accepted values (text ++ unlines value_lines)
  append_all-eq text (file, known) = rw (append_keys-eq snapshot keys text known) (
      accepted-bind (concat_map (own_values snapshot) keys) _ _ _ _ (
        rw (append_source_values-eq snapshot "identityfile" _ file) (
          accepted-bind (own_values snapshot "identityfile") _ _ _ _ (
            rw (append_proxy_command-eq (first_value snapshot.values "proxycommand")) (
              rw (unlines-append, unlines-append, unlines-append, unlines-end)
                (accepted-last _ _ _ (simp append_assoc)))))))

All-unzip :
    (P Q : String → Type 0) (xs : List String) → All (λ x. P x × Q x) xs → All P xs × All Q xs
All-unzip P Q [] h = (tt, tt)
All-unzip P Q (x ∷ xs) ((p, q), hs) = let (ps, qs) = All-unzip P Q xs hs in ((p, ps), (q, qs))

pub keys-IsKnown :
    All IsKnown ("identityfile" ∷ rendered_keys)
    × All (λ key. IsLine (name_of key)) ("identityfile" ∷ rendered_keys)
keys-IsKnown =
    All-unzip IsKnown (λ key. IsLine (name_of key)) ("identityfile" ∷ rendered_keys)
      keys-IsKnown_all

quote_value-bind :
    (value : String) (second : List String) (next : String → Result SshError String) (last : String)
    → next (quoted value) ≡ accepted second last
    → (quote_value value >>= next) ≡ accepted (value ∷ second) last
quote_value-bind value second next last h =
    rw (quote_value-eq value) (accepted-bind (value ∷ []) second (quoted value) next last h)

abbrev pub block_values : SshSnapshot → Identity → List String
block_values snapshot given =
    given.hostname ∷ given.user ∷ given.port ∷ values snapshot rendered_keys

-- The lines of the block.
abbrev pub block_lines : Profile → SshSnapshot → Identity → List String
block_lines profile snapshot given =
    list_append (header_lines profile given) (value_lines snapshot rendered_keys)

pub render_host-eq :
    (profile : Profile) (snapshot : SshSnapshot) (given : Identity)
    → (profile.source_host == snapshot.source_host) ≡ true
    → IsIdentity snapshot given
    → render_host profile snapshot
      ≡ accepted (block_values snapshot given) (unlines (block_lines profile snapshot given))
unfolding render_host required_value
render_host-eq profile snapshot given same (hostname, user, port) =
    let rest = values snapshot rendered_keys in
    let text = unlines (block_lines profile snapshot given) in
    rw (same, hostname, user, port)
      (quote_value-bind given.hostname (given.user ∷ given.port ∷ rest) _ text (
        quote_value-bind given.user (given.port ∷ rest) _ text (
          quote_value-bind given.port rest _ text (
            rw
              (
                unlines-append (header_lines profile given) (value_lines snapshot rendered_keys),
                sym (host_header-lines profile given),
              )
              (append_all-eq snapshot rendered_keys _ keys-IsKnown.0)))))
