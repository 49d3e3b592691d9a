-- ===== src/Config/Validate.antt =====
-- `Config::validate` (mint-sniper/src/config.rs): its checks, in its order. `net.now` is the clock.
use text.Mathlib.Text.{starts_with, find?}
use seasniper.Common.{
  ℕ, ◌+◌, ◌*◌, String, Bool, false, Option, none, some, List, [], ◌∷◌, ◌++◌, ◌&&◌, ◌||◌, not, ltb,
  leb, ◌==◌, any, all, is_nil, is_empty, is_some, is_none, str_eq, wrap_u64, if◌then◌else◌,
}
use seasniper.Common.Results.{Result, ok, bail_if, or_fail, ◌>>=◌, ◌>>◌}
use seasniper.Url.{Url}
use seasniper.Config.{Config, is_delegated}
use seasniper.Net.{Net}

-- The refusals of `validate`.
pub data ConfigError : Type 0 where
  invalid_rpc_url embedded_credentials : String → ConfigError
  invalid_sequencer_url : String → ConfigError
  sequencer_scheme sequencer_is_feed : ConfigError
  no_wallets : ConfigError
  negative_priority_fee_multiplier negative_priority_fee_cap : ConfigError
  zero_block_time implausible_block_time zero_inclusion_timeout short_inclusion_timeout :
      ConfigError
  race_with_jitter_max race_with_jitter_min race_with_gas_jitter race_without_targets : ConfigError
  mainnet_block_time : ConfigError
  timestamp_in_past timestamp_too_far : ConfigError
  partial_google_oauth : ConfigError
  invalid_google_redirect : ConfigError
  delegated_needs_seadrop delegated_needs_mnemonic no_delegates too_many_delegates : ConfigError
  invalid_clock_url : ConfigError

abbrev pub max_delegates : ℕ
max_delegates = 200

-- `x < 0.0`, of a bit pattern: the sign is set, and it is neither -0 nor a NaN.
abbrev pub is_negative_f64 : ℕ → Bool
is_negative_f64 bits = ltb 0x8000000000000000 bits && leb bits 0xFFF0000000000000

abbrev pub optional_url : String → List String
optional_url url = if is_empty url then [] else url ∷ []

unfoldable pub rpc_urls_to_validate : Config → List String
rpc_urls_to_validate cfg =
    cfg.ws_rpc_url
    ∷ (cfg.http_rpc_urls
        ++ optional_url cfg.sequencer_http_url
        ++ optional_url cfg.inclusion_ws_url)

abbrev pub has_credentials : Url → Bool
has_credentials url = not (is_empty url.username) || is_some url.password

abbrev pub Check : Type 0
Check = Result ConfigError (Unit {0})

unfoldable pub check_rpc_url : Net → String → Check
check_rpc_url net url = do
  parsed ← or_fail (net.parse_url url) (invalid_rpc_url url)
  bail_if (has_credentials parsed) (embedded_credentials url)

unfoldable pub check_rpc_urls : Net → List String → Check
check_rpc_urls net [] = ok tt
check_rpc_urls net (url ∷ urls) = check_rpc_url net url >> check_rpc_urls net urls

abbrev pub is_http : Url → Bool
is_http url = str_eq url.scheme "http" || str_eq url.scheme "https"

abbrev pub is_feed_host : Option String → Bool
is_feed_host none = false
is_feed_host (some host) = starts_with host "feed."

unfoldable pub check_sequencer : Net → String → Check
check_sequencer net url = if is_empty url then ok tt else (do
  parsed ← or_fail (net.parse_url url) (invalid_sequencer_url url)
  bail_if (not (is_http parsed)) sequencer_scheme
  bail_if (is_feed_host parsed.host_str) sequencer_is_feed)

unfoldable pub check_wallets_and_fees : Config → Check
check_wallets_and_fees cfg = do
  bail_if (is_nil cfg.wallets) no_wallets
  bail_if (is_negative_f64 cfg.priority_fee_multiplier) negative_priority_fee_multiplier
  bail_if (is_negative_f64 cfg.max_priority_fee_gwei_cap) negative_priority_fee_cap

unfoldable pub check_times : Config → Check
check_times cfg = do
  bail_if (cfg.block_time_ms == 0) zero_block_time
  bail_if (ltb 120000 cfg.block_time_ms) implausible_block_time
  bail_if (cfg.inclusion_timeout_ms == 0) zero_inclusion_timeout
  bail_if (ltb cfg.inclusion_timeout_ms cfg.block_time_ms) short_inclusion_timeout

unfoldable pub check_race : Config → Check
check_race cfg =
    if cfg.race_mode
    then (do
      bail_if (ltb 0 cfg.jitter_ms_max) race_with_jitter_max
      bail_if (ltb 0 cfg.jitter_ms_min) race_with_jitter_min
      bail_if (ltb 0 cfg.gas_jitter_pct) race_with_gas_jitter
      bail_if (is_empty cfg.sequencer_http_url && is_nil cfg.http_rpc_urls) race_without_targets)
    else ok tt

-- `str::contains`.
abbrev pub contains : String → String → Bool
contains text part = is_some (find? text part)

abbrev pub host_of : Option Url → Option String
host_of none = none
host_of (some url) = url.host_str

abbrev pub host_matches : String → Option String → Bool
host_matches text none = contains text "chain.robinhood.com"
host_matches text (some host) = contains host "chain.robinhood.com"

abbrev pub host_is_rh : Net → String → Bool
host_is_rh net text = host_matches text (host_of (net.parse_url text))

unfoldable pub looks_like_robinhood_chain : Net → Config → Bool
looks_like_robinhood_chain net cfg =
    not (is_empty cfg.sequencer_http_url)
    || (host_is_rh net cfg.sequencer_http_url
        || (host_is_rh net cfg.ws_rpc_url
            || (host_is_rh net cfg.inclusion_ws_url || any (host_is_rh net) cfg.http_rpc_urls)))

pub record ChainProfile : Type 0 where
  pub block_time_ms : ℕ
  pub inclusion_timeout_ms : ℕ
  pub race_mode : Bool
  pub sequencer_http_url : Option String
  pub jitter_ms_min : ℕ
  pub jitter_ms_max : ℕ
  pub gas_jitter_pct : ℕ
  pub priority_fee_multiplier : ℕ
  pub max_priority_fee_gwei_cap : ℕ

unfoldable pub chain_profile : Config → ChainProfile
chain_profile cfg = record {
  block_time_ms = cfg.block_time_ms;
  inclusion_timeout_ms = cfg.inclusion_timeout_ms;
  race_mode = cfg.race_mode;
  sequencer_http_url =
      if is_empty cfg.sequencer_http_url then none else some cfg.sequencer_http_url;
  jitter_ms_min = cfg.jitter_ms_min;
  jitter_ms_max = cfg.jitter_ms_max;
  gas_jitter_pct = cfg.gas_jitter_pct;
  priority_fee_multiplier = cfg.priority_fee_multiplier;
  max_priority_fee_gwei_cap = cfg.max_priority_fee_gwei_cap;
}

unfoldable pub check_chain : Net → Config → Check
unfolding chain_profile
check_chain net cfg =
    bail_if (looks_like_robinhood_chain net cfg && ((chain_profile cfg).block_time_ms == 12000))
      mainnet_block_time

abbrev pub twenty_years_secs : ℕ
twenty_years_secs = 20 * 365 * 24 * 60 * 60

unfoldable pub check_trigger : ℕ → Config → Check
check_trigger now cfg =
    if str_eq cfg.trigger_mode "timestamp" && not (cfg.trigger_timestamp_unix == 0)
    then (do
      bail_if (leb cfg.trigger_timestamp_unix now) timestamp_in_past
      bail_if (ltb (wrap_u64 (now + twenty_years_secs)) cfg.trigger_timestamp_unix)
          timestamp_too_far)
    else ok tt

abbrev pub google_fields : Config → List Bool
google_fields cfg =
    not (is_empty cfg.google_oauth_client_id)
    ∷ not (is_empty cfg.google_oauth_client_secret_env)
    ∷ not (is_empty cfg.google_oauth_redirect_url)
    ∷ []

unfoldable pub check_optional_url : Net → String → ConfigError → Check
check_optional_url net url e = bail_if (not (is_empty url) && is_none (net.parse_url url)) e

unfoldable pub check_google : Net → Config → Check
unfolding check_optional_url
check_google net cfg = do
  bail_if (any (λ f. f) (google_fields cfg) && not (all (λ f. f) (google_fields cfg)))
      partial_google_oauth
  check_optional_url net cfg.google_oauth_redirect_url invalid_google_redirect

unfoldable pub check_delegated : Config → Check
check_delegated cfg =
    if is_delegated cfg.mint_execution
    then (do
      bail_if (not (str_eq cfg.mint_mode "seadrop")) delegated_needs_seadrop
      bail_if (is_empty cfg.delegate_mnemonic_env) delegated_needs_mnemonic
      bail_if (cfg.delegate_count == 0) no_delegates
      bail_if (ltb max_delegates cfg.delegate_count) too_many_delegates)
    else ok tt

unfoldable pub validate : Net → Config → Check
validate net cfg = do
  check_rpc_urls net (rpc_urls_to_validate cfg)
  check_sequencer net cfg.sequencer_http_url
  check_wallets_and_fees cfg
  check_times cfg
  check_race cfg
  check_chain net cfg
  check_trigger net.now cfg
  check_google net cfg
  check_delegated cfg
  check_optional_url net cfg.clock_check_url invalid_clock_url
