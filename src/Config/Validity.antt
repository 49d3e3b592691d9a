-- ===== src/Config/Validity.antt =====
-- What a configuration that `validate` accepts is (mint-sniper/src/config.rs).
use seasniper.Common.{
  ℕ, ◌+◌, ◌≤◌, ◌<◌, String, Bool, true, false, Option, none, some, List, [], ◌∷◌, ◌≡◌, ◌↔◌, refl,
  arith, ◌&&◌, ◌||◌, not, ◌==◌, all, is_nil, is_empty, is_some, str_eq, wrap_u64, if◌then◌else◌,
}
use seasniper.Common.Results.{ok}
use seasniper.Url.{Url}
use seasniper.Config.{Config, is_delegated}
use seasniper.Net.{Net}
use seasniper.Config.Validate.{
  invalid_clock_url, validate, check_rpc_url, check_rpc_urls, check_sequencer,
  check_wallets_and_fees, check_times, check_race, check_chain, check_trigger, check_google,
  check_delegated, check_optional_url, rpc_urls_to_validate, has_credentials, is_http, is_feed_host,
  is_negative_f64, looks_like_robinhood_chain, chain_profile, twenty_years_secs, max_delegates,
}

-- A URL that parses and carries no credentials.
abbrev pub plain : Option Url → Bool
plain none = false
plain (some url) = not (has_credentials url)

check_rpc_urls_iff :
    (net : Net) (urls : List String)
    → (check_rpc_urls net urls ≡ ok tt) ↔ (all (λ url. plain (net.parse_url url)) urls ≡ true)
unfolding check_rpc_urls check_rpc_url
check_rpc_urls_iff net [] = ground arith
check_rpc_urls_iff net (url ∷ urls) = ground (arith, check_rpc_urls_iff net urls)

abbrev pub submits_to : Option Url → Bool
submits_to none = false
submits_to (some url) = is_http url && not (is_feed_host url.host_str)

-- The sequencer's URL is unset, or an HTTP URL whose host is no feed.
abbrev pub sequencer_allowed : Net → String → Bool
sequencer_allowed net url = is_empty url || submits_to (net.parse_url url)

check_sequencer_iff :
    (net : Net) (url : String)
    → (check_sequencer net url ≡ ok tt) ↔ (sequencer_allowed net url ≡ true)
unfolding check_sequencer
check_sequencer_iff net url = ground arith

pub record ValidTimes (cfg : Config) : Type 0 where
  pub positive : 0 < cfg.block_time_ms
  pub plausible : cfg.block_time_ms ≤ 120000
  pub outlasts : cfg.block_time_ms ≤ cfg.inclusion_timeout_ms

check_times_iff : (cfg : Config) → (check_times cfg ≡ ok tt) ↔ ValidTimes cfg
unfolding check_times
check_times_iff cfg = ground arith

-- A race has no jitter of any kind and at least one target.
pub record ValidRace (cfg : Config) : Type 0 where
  pub no_jitter : (cfg.jitter_ms_max ≡ 0) × (cfg.jitter_ms_min ≡ 0)
  pub no_gas_jitter : cfg.gas_jitter_pct ≡ 0
  pub target : is_empty cfg.sequencer_http_url && is_nil cfg.http_rpc_urls ≡ false

abbrev pub RaceAllowed : Bool → Config → Type 0
RaceAllowed false cfg = Unit
RaceAllowed true cfg = ValidRace cfg

check_race_iff : (cfg : Config) → (check_race cfg ≡ ok tt) ↔ RaceAllowed cfg.race_mode cfg
unfolding check_race
check_race_iff cfg = by_mode (cfg.race_mode) refl
  where
    by_mode : (race : Bool) → cfg.race_mode ≡ race → (check_race cfg ≡ ok tt) ↔ RaceAllowed race cfg
    by_mode false e = ground arith
    by_mode true e = ground arith

-- Delegated minting works through SeaDrop, with a named mnemonic and 1 to 200 delegates.
pub record ValidDelegation (cfg : Config) : Type 0 where
  pub seadrop : str_eq cfg.mint_mode "seadrop" ≡ true
  pub mnemonic : is_empty cfg.delegate_mnemonic_env ≡ false
  pub some_delegate : 0 < cfg.delegate_count
  pub capped : cfg.delegate_count ≤ max_delegates

abbrev pub DelegationAllowed : Bool → Config → Type 0
DelegationAllowed false cfg = Unit
DelegationAllowed true cfg = ValidDelegation cfg

check_delegated_iff :
    (cfg : Config)
    → (check_delegated cfg ≡ ok tt) ↔ DelegationAllowed (is_delegated cfg.mint_execution) cfg
unfolding check_delegated
check_delegated_iff cfg = by_mode (is_delegated cfg.mint_execution) refl
  where
    by_mode :
        (delegated : Bool)
        → is_delegated cfg.mint_execution ≡ delegated
        → (check_delegated cfg ≡ ok tt) ↔ DelegationAllowed delegated cfg
    by_mode false e = ground arith
    by_mode true e = ground arith

-- A known trigger time is in the future, by at most twenty years.
pub record ValidInstant (now : ℕ) (cfg : Config) : Type 0 where
  pub future : now < cfg.trigger_timestamp_unix
  pub near : cfg.trigger_timestamp_unix ≤ wrap_u64 (now + twenty_years_secs)

abbrev pub waits_for_instant : Config → Bool
waits_for_instant cfg = str_eq cfg.trigger_mode "timestamp" && not (cfg.trigger_timestamp_unix == 0)

abbrev pub InstantAllowed : Bool → ℕ → Config → Type 0
InstantAllowed false now cfg = Unit
InstantAllowed true now cfg = ValidInstant now cfg

check_trigger_iff :
    (now : ℕ) (cfg : Config)
    → (check_trigger now cfg ≡ ok tt) ↔ InstantAllowed (waits_for_instant cfg) now cfg
unfolding check_trigger
check_trigger_iff now cfg = by_mode (waits_for_instant cfg) refl
  where
    by_mode :
        (waits : Bool)
        → waits_for_instant cfg ≡ waits
        → (check_trigger now cfg ≡ ok tt) ↔ InstantAllowed waits now cfg
    by_mode false e = ground arith
    by_mode true e = ground arith

-- Unset, or a URL that parses.
abbrev pub unset_or_parsed : Net → String → Bool
unset_or_parsed net url = is_empty url || is_some (net.parse_url url)

-- All three fields of the Google sign-in are set, or none is.
abbrev pub all_or_none : Config → Bool
all_or_none cfg =
    if is_empty cfg.google_oauth_client_id
    then is_empty cfg.google_oauth_client_secret_env && is_empty cfg.google_oauth_redirect_url
    else not (is_empty cfg.google_oauth_client_secret_env)
      && not (is_empty cfg.google_oauth_redirect_url)

check_google_iff :
    (net : Net) (cfg : Config)
    → (check_google net cfg ≡ ok tt)
      ↔ (all_or_none cfg && unset_or_parsed net cfg.google_oauth_redirect_url ≡ true)
unfolding check_google check_optional_url
check_google_iff net cfg = ground arith

-- An accepted configuration, by the code's own tests.
pub record Valid (net : Net) (cfg : Config) : Type 0 where
  pub urls : all (λ url. plain (net.parse_url url)) (rpc_urls_to_validate cfg) ≡ true
  pub sequencer : sequencer_allowed net cfg.sequencer_http_url ≡ true
  pub some_wallet : is_nil cfg.wallets ≡ false
  pub multiplier : is_negative_f64 cfg.priority_fee_multiplier ≡ false
  pub cap : is_negative_f64 cfg.max_priority_fee_gwei_cap ≡ false
  pub times : ValidTimes cfg
  pub race : RaceAllowed cfg.race_mode cfg
  pub chain : looks_like_robinhood_chain net cfg && (cfg.block_time_ms == 12000) ≡ false
  pub instant : InstantAllowed (waits_for_instant cfg) net.now cfg
  pub google : all_or_none cfg && unset_or_parsed net cfg.google_oauth_redirect_url ≡ true
  pub delegation : DelegationAllowed (is_delegated cfg.mint_execution) cfg
  pub clock : unset_or_parsed net cfg.clock_check_url ≡ true

-- Everything that `validate` runs, and passes.
record Passes (net : Net) (cfg : Config) : Type 0 where
  urls : check_rpc_urls net (rpc_urls_to_validate cfg) ≡ ok tt
  sequencer : check_sequencer net cfg.sequencer_http_url ≡ ok tt
  wallets : check_wallets_and_fees cfg ≡ ok tt
  times : check_times cfg ≡ ok tt
  race : check_race cfg ≡ ok tt
  chain : check_chain net cfg ≡ ok tt
  trigger : check_trigger net.now cfg ≡ ok tt
  google : check_google net cfg ≡ ok tt
  delegated : check_delegated cfg ≡ ok tt
  clock : check_optional_url net cfg.clock_check_url invalid_clock_url ≡ ok tt

validate-Passes : (net : Net) (cfg : Config) → validate net cfg ≡ ok tt → Passes net cfg
unfolding validate
validate-Passes net cfg h = ground arith

Passes-validate : (net : Net) (cfg : Config) → Passes net cfg → validate net cfg ≡ ok tt
unfolding validate
Passes-validate net cfg p = ground arith

Passes-Valid : (net : Net) (cfg : Config) → Passes net cfg → Valid net cfg
unfolding check_wallets_and_fees check_chain chain_profile check_optional_url
Passes-Valid net cfg p = record {
  urls = (check_rpc_urls_iff net (rpc_urls_to_validate cfg)).0 p.urls;
  sequencer = (check_sequencer_iff net cfg.sequencer_http_url).0 p.sequencer;
  some_wallet = ground (arith, p.wallets);
  multiplier = ground (arith, p.wallets);
  cap = ground (arith, p.wallets);
  times = (check_times_iff cfg).0 p.times;
  race = (check_race_iff cfg).0 p.race;
  chain = ground (arith, p.chain);
  instant = (check_trigger_iff net.now cfg).0 p.trigger;
  google = (check_google_iff net cfg).0 p.google;
  delegation = (check_delegated_iff cfg).0 p.delegated;
  clock = ground (arith, p.clock);
}

Valid-Passes : (net : Net) (cfg : Config) → Valid net cfg → Passes net cfg
unfolding check_wallets_and_fees check_chain chain_profile check_optional_url
Valid-Passes net cfg v = record {
  urls = (check_rpc_urls_iff net (rpc_urls_to_validate cfg)).1 v.urls;
  sequencer = (check_sequencer_iff net cfg.sequencer_http_url).1 v.sequencer;
  wallets = ground (arith, v.some_wallet, v.multiplier, v.cap);
  times = (check_times_iff cfg).1 v.times;
  race = (check_race_iff cfg).1 v.race;
  chain = ground (arith, v.chain);
  trigger = (check_trigger_iff net.now cfg).1 v.instant;
  google = (check_google_iff net cfg).1 v.google;
  delegated = (check_delegated_iff cfg).1 v.delegation;
  clock = ground (arith, v.clock);
}

pub validate_iff : (net : Net) (cfg : Config) → (validate net cfg ≡ ok tt) ↔ Valid net cfg
validate_iff net cfg = (
  λ h. Passes-Valid net cfg (validate-Passes net cfg h),
  λ v. Passes-validate net cfg (Valid-Passes net cfg v),
)
