-- ===== src/Startup.antt =====
-- The start of the process (`main` of mint-sniper/src/main.rs, and `load_wallets` of mint-sniper/src/wallet.rs), up to
-- the control loop's first turn. A start that fails or panics ends the process: what it logged is left out.
pub mod Gate
pub mod Opening
pub mod Drop
pub mod Ready
pub mod Wide
pub mod Panics
use seasniper.Common.{
  ℕ, ◌*◌, String, Bool, Option, none, some, List, [], ◌∷◌, ◌++◌, ltb, first, is_empty, str_eq,
  unwrap_or, wrap_u256, if◌then◌else◌, ◌==◌,
}
use seasniper.Common.Results.{Result, ok, err, or_fail, bail_if, ◌>>=◌, ◌>>◌}
use seasniper.Failure.{is_panic}
use seasniper.Failure.{
  Failure, bad_nft_contract, bad_fee_recipient, bad_contract_address, bad_signature, bad_argument,
  encoding_failed, fee_recipient_not_allowed, bad_rpc_url, bad_private_key, no_client_secret,
}
use seasniper.Bus.{info, warn, drop_found, quantity_too_high, trigger_set, listening}
use seasniper.Config.{Config, resolve_private_keys, resolve_google_oauth_client_secret}
use seasniper.Config.Validate.{ConfigError, validate}
use seasniper.Wallet.{ManagedWallet}
use seasniper.Net.{Net}
use seasniper.Effect.{Effect, log_now}
use seasniper.Seadrop.{
  PublicDropInfo, fetch_public_drop, is_fee_recipient_allowed, encode_mint_public,
  resolve_seadrop_address,
}
use seasniper.Executor.Prepare.{timed_read}
use seasniper.Identity.Oidc.{Provider}
use seasniper.Identity.Credentials.{Library}
use seasniper.Identity.Origin.{new_webauthn, allowed_origins}
use seasniper.Control.State.{Loop}
use seasniper.Control.Clock.{log_clock_drift_check}
use seasniper.Startup.Opening.{
  Machine, Mint, StartError, at_first, choose_mint, encode_selector_only, failure, load,
}

-- `load_wallets`: each key's signer, with the nonce that the node tells.
unfoldable pub load_wallet : Machine → (url private_key : String) → Result Failure ManagedWallet
load_wallet m url key = do
  (signer, address) ← or_fail (m.signer_of key) bad_private_key
  nonce ← timed_read (m.net.get_transaction_count url address) "nonce"
  ok (record { signer = signer; address = address; next_nonce = nonce })

unfoldable pub load_each :
    Machine → (url : String) → List String → Result Failure (List ManagedWallet)
load_each m url [] = ok []
load_each m url (key ∷ keys) = do
  wallet ← load_wallet m url key
  rest ← load_each m url keys
  ok (wallet ∷ rest)

unfoldable pub load_wallets :
    Machine → List String → (url : String) → Result Failure (List ManagedWallet)
load_wallets m keys url = do
  _ ← or_fail (m.net.parse_url url) (bad_rpc_url url)
  load_each m url keys

-- Google sign-in and WebAuthn, where a client id is configured.
unfoldable pub sign_in_of : Machine → Config → Result Failure (Option Provider)
sign_in_of m cfg = elim (is_empty cfg.google_oauth_client_id) [
  | Bool.true ↦ ok none
  | Bool.false ↦ (do
    secret ← or_fail (resolve_google_oauth_client_secret m.net.env_var cfg) no_client_secret
    oidc ← m.discover cfg.google_oauth_client_id secret cfg.google_oauth_redirect_url
    ok (some oidc))
]

unfoldable pub webauthn_of : Machine → Config → Result Failure (Option Library)
webauthn_of m cfg = elim (is_empty cfg.google_oauth_client_id) [
  | Bool.true ↦ ok none
  | Bool.false ↦ (do
    library ← new_webauthn m.net.parse_url m.site cfg.google_oauth_redirect_url
    ok (some library))
]

-- What runs after the start: the state of the API, but for the wallets' first status, and that of the control loop.
pub record Started : Type 0 where
  pub config : Config
  pub api_token : String
  pub google_oidc : Option Provider
  pub webauthn : Option Library
  pub cors_origins : List String
  pub ranked_http_rpc_urls : List String
  pub control : Loop
  pub notes : List Effect

abbrev pub first_loop : Machine → Mint → List ManagedWallet → Loop
first_loop m mint wallets = record {
  armed = Bool.false;
  contract = mint.contract;
  mint_state_selector = encode_selector_only m mint.config.mint_state_fn_signature;
  admin_watch_target = mint.admin_watch_target;
  mint_calldata = mint.calldata;
  mint_value = mint.value;
  watcher_handle = none;
  prepare_timer_handle = none;
  reprepare_handle = none;
  warmed_providers = [];
  warmed_sequencer = none;
  prepared_fire = none;
  block_ticker = none;
  wallets = wallets;
}

unfoldable pub launch : Machine → Mint → List ManagedWallet → Result Failure Started
launch m mint wallets = do
  token ← m.api_token
  m.open_db
  m.session_key
  oidc ← sign_in_of m mint.config
  library ← webauthn_of m mint.config
  m.bind
  ok (record {
    config = mint.config;
    api_token = token;
    google_oidc = oidc;
    webauthn = library;
    cors_origins = [];
    ranked_http_rpc_urls = mint.config.http_rpc_urls;
    control = first_loop m mint wallets;
    notes = mint.notes ++ log_now m.net info listening ∷ [];
  })

unfoldable pub launch_at : Machine → Mint → List String → (url : String) → Result Failure Started
launch_at m mint keys url = do wallets ← load_wallets m keys url; launch m mint wallets

abbrev pub with_keys :
    Machine → Mint → Result Failure (List String) → Option (Result Failure Started)
with_keys m mint (err e) = some (err e)
with_keys m mint (ok keys) = at_first mint.config.http_rpc_urls (launch_at m mint keys)

abbrev pub with_mint : Machine → Option (Result Failure Mint) → Option (Result Failure Started)
with_mint m none = none
with_mint m (some (err e)) = if is_panic e then none else some (err e)
with_mint m (some (ok mint)) =
    with_keys m mint (resolve_private_keys m.net.env_var mint.config.wallets)

abbrev pub reported : Config → Machine → Result Failure Started → Result StartError Started
reported cfg m (err e) = err (failure e)
reported cfg m (ok s) = ok (record s {
  notes = (log_clock_drift_check m.net cfg.clock_check_url cfg.clock_drift_warn_ms).0 ++ s.notes;
})

-- `api::router` makes the CORS allow-list, once the listener is bound.
abbrev pub routed : Machine → Result StartError Started → Option (Result StartError Started)
routed m (err e) = some (err e)
routed m (ok s) = elim (allowed_origins m.net.parse_url m.site s.config.google_oauth_redirect_url) [
  | none ↦ none
  | some origins ↦ some (ok (record s { cors_origins = origins }))
]

abbrev pub with_config : Machine → Result StartError Config → Option (Result StartError Started)
with_config m (err e) = some (err e)
with_config m (ok cfg) = elim (with_mint m (choose_mint m cfg)) [
  | none ↦ none
  | some r ↦ routed m (reported cfg m r)
]

-- `none` is a panic.
unfoldable pub main : Machine → Option (Result StartError Started)
main m = with_config m (load m)
