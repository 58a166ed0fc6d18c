-- ===== src/Bridge/Jsonl/Loop.antt =====
-- crates/cxs-bridge/src/lib.rs: the loop of `relay_jsonl` on what its two reads take from the client and
-- the server, until a stream ends. The text of a line's bytes is a parameter.
use codex_shuttle.Prelude.{ℕ, String, List, [], ◌∷◌, ◌++◌, Option, none, some, ok, ◌>>=◌}
use codex_shuttle.Json.{Codec}
use codex_shuttle.Core.Profile.{Profile}
use codex_shuttle.Bridge.Errors.{Fallible}
use codex_shuttle.Bridge.Rewrite.{rewrite_client_message}
use codex_shuttle.Bridge.Jsonl.{Relay, client_line, server_line}
use codex_shuttle.Bridge.Jsonl.Reads.{Side, client, server, Taken, Reads, take}
use codex_shuttle.Bridge.Jsonl.Order.{passed_text}

module _ (codec : Codec) (profile : Profile) (text : List ℕ → String) (maximum : ℕ) where
  -- One turn of the loop, on what the reads return.
  unfoldable pub turn : Option (Side × List ℕ) → Relay → Fallible Relay
  unfolding client_line server_line
  turn none s = ok s
  turn (some (client, line)) s = client_line codec profile (text line) s
  turn (some (server, line)) s = server_line codec profile (text line) s

  unfoldable pub relay_jsonl : List Taken → Reads → Relay → Fallible (Relay × Reads)
  unfolding take turn
  relay_jsonl [] reads s = ok (s, reads)
  relay_jsonl (taken ∷ more) reads s = do
    (found, next) ← take maximum taken reads
    s' ← turn found s
    relay_jsonl more next s'

  -- The lines as they are rewritten for the App Server.
  abbrev pub rewritten : List (List ℕ) → List String
  rewritten [] = []
  rewritten (line ∷ lines) =
      passed_text codec (rewrite_client_message codec profile none (text line)) ++ rewritten lines
