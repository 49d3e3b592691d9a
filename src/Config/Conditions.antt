-- ===== src/Config/Conditions.antt =====
-- What `validate` asks of a configuration (mint-sniper/src/config.rs), written out.
use text.Mathlib.Text.{starts_with, find?}
use seasniper.Common.{
  ℕ, ◌+◌, ◌≤◌, ◌<◌, ◌%◌, ◌^◌, String, Bool, true, false, Option, none, some, ◌≡◌, ◌⊎◌, All, is_nil,
  is_empty, str_eq, ◌&&◌,
}
use seasniper.Url.{Url}
use seasniper.Config.{Config, parallel}
use seasniper.Net.{Net}

-- A URL that parses, with no user and no password.
pub record Plain (net : Net) (text : String) : Type 0 where
  pub url : Url
  pub parsed : net.parse_url text ≡ some url
  pub no_user : is_empty url.username ≡ true
  pub no_password : url.password ≡ none

abbrev pub NoFeed : Option String → Type 0
NoFeed none = Unit
NoFeed (some host) = starts_with host "feed." ≡ false

-- A URL of a sequencer: HTTP or HTTPS, and of no feed.
pub record Submits (net : Net) (text : String) : Type 0 where
  pub url : Url
  pub parsed : net.parse_url text ≡ some url
  pub http : (str_eq url.scheme "http" ≡ true) ⊎ (str_eq url.scheme "https" ≡ true)
  pub no_feed : NoFeed url.host_str

pub record Timed (cfg : Config) : Type 0 where
  pub positive : 0 < cfg.block_time_ms
  pub plausible : cfg.block_time_ms ≤ 120000
  pub outlasts : cfg.block_time_ms ≤ cfg.inclusion_timeout_ms

-- A race waits for no jitter and has a target.
pub record Racing (cfg : Config) : Type 0 where
  pub no_jitter_max : cfg.jitter_ms_max ≡ 0
  pub no_jitter_min : cfg.jitter_ms_min ≡ 0
  pub no_gas_jitter : cfg.gas_jitter_pct ≡ 0
  pub target : (is_empty cfg.sequencer_http_url ≡ false) ⊎ (is_nil cfg.http_rpc_urls ≡ false)

abbrev pub Race : Bool → Config → Type 0
Race false cfg = Unit
Race true cfg = Racing cfg

-- The text that names the chain: the host, or the whole text where there is none.
abbrev pub named_by : String → Option Url → String
named_by text none = text
named_by text (some url) = elim url.host_str [ none ↦ text | some host ↦ host ]

abbrev pub Elsewhere : Net → String → Type 0
Elsewhere net text = find? (named_by text (net.parse_url text)) "chain.robinhood.com" ≡ none

-- No sequencer, and no URL of the chain `chain.robinhood.com`.
pub record OtherChain (net : Net) (cfg : Config) : Type 0 where
  pub no_sequencer : is_empty cfg.sequencer_http_url ≡ true
  pub at_sequencer : Elsewhere net cfg.sequencer_http_url
  pub at_websocket : Elsewhere net cfg.ws_rpc_url
  pub at_inclusion : Elsewhere net cfg.inclusion_ws_url
  pub at_http : All (Elsewhere net) cfg.http_rpc_urls

-- A time that is to come, within twenty years of 365 days.
pub record Awaited (now : ℕ) (cfg : Config) : Type 0 where
  pub future : now < cfg.trigger_timestamp_unix
  pub near : cfg.trigger_timestamp_unix ≤ (now + 630720000) % 2 ^ 64

abbrev pub no_google : Config → Bool
no_google cfg =
    is_empty cfg.google_oauth_client_id
    && (is_empty cfg.google_oauth_client_secret_env && is_empty cfg.google_oauth_redirect_url)

pub record Google (net : Net) (cfg : Config) : Type 0 where
  pub client : is_empty cfg.google_oauth_client_id ≡ false
  pub secret : is_empty cfg.google_oauth_client_secret_env ≡ false
  pub redirect : is_empty cfg.google_oauth_redirect_url ≡ false
  pub url : Url
  pub parsed : net.parse_url cfg.google_oauth_redirect_url ≡ some url

-- Through SeaDrop, with a named mnemonic, for 1 to 200 delegates.
pub record Delegating (cfg : Config) : Type 0 where
  pub seadrop : str_eq cfg.mint_mode "seadrop" ≡ true
  pub mnemonic : is_empty cfg.delegate_mnemonic_env ≡ false
  pub positive : 0 < cfg.delegate_count
  pub capped : cfg.delegate_count ≤ 200

-- An `f64`, by its bits, that is not below zero: the sign is clear, or it is -0 or a NaN.
abbrev pub NotNegative : ℕ → Type 0
NotNegative bits = (bits ≤ 0x8000000000000000) ⊎ (0xFFF0000000000000 < bits)

abbrev pub Parses : Net → String → Type 0
Parses net text = (url : Url) × (net.parse_url text ≡ some url)

pub record Accepted (net : Net) (cfg : Config) : Type 0 where
  pub websocket : Plain net cfg.ws_rpc_url
  pub http : All (Plain net) cfg.http_rpc_urls
  pub sequencer :
      (is_empty cfg.sequencer_http_url ≡ true)
      ⊎ (Plain net cfg.sequencer_http_url × Submits net cfg.sequencer_http_url)
  pub inclusion : (is_empty cfg.inclusion_ws_url ≡ true) ⊎ Plain net cfg.inclusion_ws_url
  pub some_wallet : is_nil cfg.wallets ≡ false
  pub multiplier : NotNegative cfg.priority_fee_multiplier
  pub cap : NotNegative cfg.max_priority_fee_gwei_cap
  pub times : Timed cfg
  pub race : Race cfg.race_mode cfg
  pub chain : (¬ (cfg.block_time_ms ≡ 12000)) ⊎ OtherChain net cfg
  pub instant :
      (str_eq cfg.trigger_mode "timestamp" ≡ false)
      ⊎ ((cfg.trigger_timestamp_unix ≡ 0) ⊎ Awaited net.now cfg)
  pub google : (no_google cfg ≡ true) ⊎ Google net cfg
  pub delegation : (cfg.mint_execution ≡ parallel) ⊎ Delegating cfg
  pub clock : (is_empty cfg.clock_check_url ≡ true) ⊎ Parses net cfg.clock_check_url
