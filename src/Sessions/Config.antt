-- ===== src/Sessions/Config.antt =====
-- crates/cxs-sessions/src/lib.rs: `resolve_provider`. The reading of TOML is a parameter.
use codex_shuttle.Prelude.{String, Option, none, some, string_eq, Result, ok, err, ◌>>◌}
use codex_shuttle.Sessions.{SessionError, io_failed, invalid_config}
use codex_shuttle.Sessions.Names.{validate_provider}

-- `config.toml` of a Codex home.
pub data ConfigFile : Type 0 where
  config_missing config_unreadable : ConfigFile
  config_text : String → ConfigFile

-- The two texts that the crate looks up in the parsed configuration.
pub record Config : Type 0 where
  pub model_provider : Option String
  pub sqlite_home : Option String

unfoldable pub checked_provider : String → Result SessionError String
checked_provider provider = validate_provider provider >> ok provider

unfoldable pub configured_provider : Option Config → Result SessionError String
unfolding checked_provider
configured_provider none = err invalid_config
configured_provider (some config) =
    checked_provider (elim config.model_provider [ none ↦ "openai" | some provider ↦ provider ])

module _ (parse : String → Option Config) where
  unfoldable pub resolve_provider : ConfigFile → Option String → Result SessionError String
  unfolding configured_provider checked_provider
  resolve_provider config (some provider) = checked_provider provider
  resolve_provider config_missing none = ok "openai"
  resolve_provider config_unreadable none = err io_failed
  resolve_provider (config_text text) none = configured_provider (parse text)
