-- ===== src/Url.antt =====
-- What the code reads off a parsed URL, and `redact_rpc_url` (mint-sniper/src/config.rs).
-- Parsing is that of the crate `url`, a parameter.
use seasniper.Common.{ℕ, String, Option, none, some}

pub record Url : Type 0 where
  pub scheme : String
  pub username : String
  pub password : Option String
  pub host_str : Option String
  pub port : Option ℕ

-- The text that replaces a URL in a log line: the path, which may hold an API key, is gone.
pub data Redacted : Type 0 where
  with_port : String → String → ℕ → Redacted
  without_port : String → String → Redacted
  no_host unparseable : Redacted

redact_host : Url → Option String → Redacted
redact_host url none = no_host
redact_host url (some host) = elim url.port [
  | some port ↦ with_port url.scheme host port
  | none ↦ without_port url.scheme host
]

unfoldable pub redact_rpc_url : (String → Option Url) → String → Redacted
unfolding redact_host
redact_rpc_url parse_url text = elim (parse_url text) [
  | some url ↦ redact_host url url.host_str
  | none ↦ unparseable
]
