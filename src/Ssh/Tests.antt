-- ===== src/Ssh/Tests.antt =====
-- The theorems on crates/cxs-ssh at concrete inputs.
use codex_shuttle.Core.Names.{is_ascii_whitespace, validate_host_alias}
use codex_shuttle.Prelude.Text.{bytes}
use Prim.Native.String.{◌++◌}
use codex_shuttle.Prelude.{String, ◌≡◌, refl, true, [], ◌∷◌, none, some, string_eq, all, ok}
use codex_shuttle.Prelude.Assoc.{lookup, insert}
use codex_shuttle.Prelude.Strings.{
  codes, split_lines, trim, is_empty, is_whitespace, replace_char, split_inclusive, split_once,
  strip_break, strip_last, to_ascii_lowercase, trim_end, trim_start,
}
use codex_shuttle.Prelude.Strings.Lines.{IsLine, unlines}
use codex_shuttle.Core.Profile.{Profile, ready, status_text}
use codex_shuttle.Ssh.{Ssh}
use codex_shuttle.Ssh.Quote.{quote_value, reject_newline}
use codex_shuttle.Ssh.Quote.RoundTrip.{read_argument, read_argument-quote_value}
use codex_shuttle.Ssh.Snapshot.{
  SshSnapshot, Values, parse_ssh_g, resolve, first_value, required_value,
}
use codex_shuttle.Ssh.Snapshot.Parse.{values_of, listed, parse_ssh_g-values_of}
use codex_shuttle.Ssh.Snapshot.Resolve.{resolve-render_host}
use codex_shuttle.Ssh.Render.{render_host, ensure_managed_include, append_value}
use codex_shuttle.Ssh.Render.Block.{is_acceptable}
use codex_shuttle.Ssh.Render.Lines.{Identity, IsIdentity, block_lines}
use codex_shuttle.Ssh.Render.Refines.{render_host-block_lines}
use codex_shuttle.Ssh.Render.Include.{IncludesManaged, ensure_managed_include-IncludesManaged}
use codex_shuttle.Ssh.Remote.{RemoteFacts}
use codex_shuttle.Ssh.Remote.Facts.{fact_lines}

abbrev gpu : Profile
gpu = record {
  schema_version = 1;
  name = "gpu";
  source_host = "box";
  app_alias = "cxs-gpu";
  status = ready;
  codex_version = "1";
  local_socket = "/s/bridge.sock";
  remote_socket = "/tmp/cxs-0a.sock";
  environment_id = "cxs-gpu";
  local_exec_port = 4000;
  remote_exec_port = 40000;
  token_file = "/s/bridge.token";
  codex_home = "/h/.codex";
  installed_target = none;
  remote_home = none;
  remote_release = none;
  package_sha256 = none;
  shim_sha256 = none;
  executor_source = none;
  executor_path = none;
}

-- What `ssh -G` prints for the host, with a file name that must be quoted.
abbrev printed : String
printed = "hostname h\nuser u\nport 22\nIdentityFile /k/a b\n"

abbrev found : Values
found =
    ("hostname", "h" ∷ [])
    ∷ ("user", "u" ∷ [])
    ∷ ("port", "22" ∷ [])
    ∷ ("identityfile", "/k/a b" ∷ [])
    ∷ []

abbrev sample : SshSnapshot
sample = record { source_host = "box"; values = found; inherited_values = found }

abbrev own : SshSnapshot
own = record { source_host = "box"; values = found; inherited_values = [] }

abbrev rendered : String
rendered =
    "# profile=gpu source=box status=ready\nHost cxs-gpu\n  HostName h\n  User u\n  Port 22\n  IdentityFile \"/k/a b\"\n  RequestTTY no\n"

abbrev answer : Ssh
answer arguments = some (record { success = true; stdout = some printed; stderr = "" })

read_argument-quote_value_example :
    IsLine "\"/k/a b\"" × (read_argument "\"/k/a b\"" ≡ some "/k/a b")
unfolding quote_value bytes is_ascii_whitespace replace_char codes
read_argument-quote_value_example =
    read_argument-quote_value "/k/a b" "\"/k/a b\"" (λ e. cc) refl refl

parse_ssh_g-values_of_example :
    (lookup "identityfile" found ≡ listed (values_of "identityfile" (split_lines printed)))
    × (all is_acceptable (values_of "identityfile" (split_lines printed)) ≡ true)
unfolding parse_ssh_g split_lines split_inclusive is_empty trim trim_end trim_start strip_break
    strip_last is_whitespace split_once reject_newline bytes lookup insert to_ascii_lowercase
parse_ssh_g-values_of_example = parse_ssh_g-values_of printed found "identityfile" refl

render_host-block_lines_example :
    (given : Identity) × IsIdentity own given × (split_lines rendered ≡ block_lines gpu own given)
unfolding codes render_host required_value first_value lookup quote_value bytes append_value
    status_text is_ascii_whitespace replace_char
render_host-block_lines_example = render_host-block_lines gpu own rendered (refl, refl, refl) refl

resolve-render_host_example :
    (given : Identity) × IsIdentity sample given
    × (render_host gpu sample ≡ ok (unlines (block_lines gpu sample given)))
unfolding resolve validate_host_alias bytes is_ascii_whitespace split_lines split_inclusive is_empty
    trim trim_end trim_start strip_break strip_last is_whitespace split_once reject_newline
    first_value lookup insert to_ascii_lowercase
resolve-render_host_example = resolve-render_host answer "box" sample gpu refl refl

ensure_managed_include-IncludesManaged_example :
    IncludesManaged (ensure_managed_include (some "Host a\n"))
    × (ensure_managed_include (some (ensure_managed_include (some "Host a\n")))
        ≡ ensure_managed_include (some "Host a\n"))
    × ((added : String) × (ensure_managed_include (some "Host a\n") ≡ added ++ "Host a\n"))
ensure_managed_include-IncludesManaged_example = ensure_managed_include-IncludesManaged "Host a\n"

abbrev facts : RemoteFacts
facts = record { home = "/h=1"; kernel = "Linux"; arch = "x86_64" }

abbrev remote : Ssh
remote arguments =
    some (record { success = true; stdout = some (unlines (fact_lines facts)); stderr = "" })
