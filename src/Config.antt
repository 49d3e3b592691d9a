-- ===== src/Config.antt =====
-- The configuration (mint-sniper/src/config.rs). An `f64` field holds its IEEE 754 bit pattern.
pub mod Validate
pub mod Validity
pub mod Conditions
pub mod Accepted
use seasniper.Common.{ℕ, String, Bool, List, [], ◌∷◌, Option, none, is_empty, if◌then◌else◌}
use seasniper.Common.Results.{Result, ok, or_fail, ◌>>=◌}
use seasniper.Failure.{Failure, env_not_set}

pub data MintExecution : Type 0 where
  parallel delegated : MintExecution

abbrev pub is_delegated : MintExecution → Bool
is_delegated parallel = Bool.false
is_delegated delegated = Bool.true

pub record Config : Type 0 where
  pub ws_rpc_url : String
  pub http_rpc_urls : List String
  pub sequencer_http_url : String
  pub inclusion_ws_url : String
  pub block_time_ms : ℕ
  pub inclusion_timeout_ms : ℕ
  pub mint_mode : String
  pub mint_execution : MintExecution
  pub delegate_mnemonic_env : String
  pub delegate_count : ℕ
  pub contract_address : String
  pub mint_fn_signature : String
  pub mint_fn_args_template : List String
  pub mint_state_fn_signature : String
  pub trigger_mode : String
  pub trigger_timestamp_unix : ℕ
  pub mint_enable_admin : String
  pub seadrop_address : String
  pub nft_contract : String
  pub fee_recipient : String
  pub quantity_per_wallet : ℕ
  pub priority_fee_multiplier : ℕ
  pub max_priority_fee_gwei_cap : ℕ
  pub gas_limit_headroom_pct : ℕ
  pub jitter_ms_min : ℕ
  pub jitter_ms_max : ℕ
  pub gas_jitter_pct : ℕ
  pub race_mode : Bool
  pub wallets : List String
  pub tracked_wallets : List String
  pub copymint_auto_fire_free : Bool
  pub copymint_auto_fire_paid : Bool
  pub max_copymint_price_wei : ℕ
  pub opensea_api_key_env : String
  pub google_oauth_client_id : String
  pub google_oauth_client_secret_env : String
  pub google_oauth_redirect_url : String
  pub clock_check_url : String
  pub clock_drift_warn_ms : ℕ
  pub clock_drift_refuse_arm_ms : ℕ

-- The socket that pushes block headers: `inclusion_ws_url`, or `ws_rpc_url` where that is unset.
unfoldable pub block_ticker_ws_url : Config → String
block_ticker_ws_url cfg =
    if is_empty cfg.inclusion_ws_url then cfg.ws_rpc_url else cfg.inclusion_ws_url

-- `env_var` is `std::env::var`.
unfoldable pub resolve_opensea_api_key : (env_var : String → Option String) → Config → Option String
resolve_opensea_api_key env_var cfg =
    if is_empty cfg.opensea_api_key_env then none else env_var cfg.opensea_api_key_env

unfoldable pub resolve_google_oauth_client_secret :
    (env_var : String → Option String) → Config → Option String
resolve_google_oauth_client_secret env_var cfg =
    if is_empty cfg.google_oauth_client_secret_env
    then none
    else env_var cfg.google_oauth_client_secret_env

-- The keys of the wallets, from the environment; the first one that is not set ends it.
unfoldable pub resolve_private_keys :
    (env_var : String → Option String) → List String → Result Failure (List String)
resolve_private_keys env_var [] = ok []
resolve_private_keys env_var (name ∷ names) = do
  key ← or_fail (env_var name) (env_not_set name)
  rest ← resolve_private_keys env_var names
  ok (key ∷ rest)
