-- ===== src/Bus.antt =====
-- The event bus (mint-sniper/src/bus.rs): the typed events that every part sends to the UI and the
-- audit log. A text that the code formats is a `Note` or a `Detail` that carries the printed values;
-- an address or a wei amount that is printed stands as its number.
use seasniper.Common.{ℕ, String, Bool, Option, List}
use seasniper.Failure.{Failure}
use seasniper.Url.{Redacted}

pub data Level : Type 0 where
  info warn error : Level

-- The messages of `bus::log`.
pub data Note : Type 0 where
  -- executor.rs
  skipping_rpc_url skipping_sequencer_url : String → Note
  connection_warmed connection_cold connection_warm_timed_out : String → Note
  sequencer_warmed sequencer_write_only sequencer_cold sequencer_warm_timed_out : String → Note
  prepared : ℕ → ℕ → ℕ → Note
  -- main.rs
  already_armed refusing_to_arm : Note
  clock_drift clock_check_failed : Note
  inclusion_detection : Bool → Note
  bad_mint_enable_admin : Note
  unrecognised_trigger_mode : String → Note
  armed : String → Note
  no_providers_to_prepare : Note
  price_changed : ℕ → ℕ → Note
  price_check_failed : Failure → Note
  pre_signed : ℕ → Note
  prepare_failed fire_failed copymint_prepare_failed copymint_fire_failed : Failure → Note
  disarmed firing firing_unprepared : Note
  firing_copymint : ℕ → Note
  target_set : ℕ → Bool → Note
  firing_delegated : Note
  delegated_failed : Failure → Note
  watcher_failed : Failure → Note
  -- copymint.rs
  copymint_error : Failure → Note
  drop_lookup_failed : ℕ → ℕ → Failure → Note
  drop_not_live : ℕ → ℕ → ℕ → ℕ → ℕ → Note
  opportunity_free : ℕ → ℕ → Note
  opportunity_paid opportunity_too_dear : ℕ → ℕ → ℕ → Note
  calldata_failed : ℕ → Failure → Note
  manual_copymint : ℕ → ℕ → Note
  -- delegated/executor.rs
  delegated_refused delegated_preflight : String → Note
  -- api.rs
  config_rejected config_updated config_not_written : Note
  manual_fire : Note
  target_not_written : Note
  session_touch_failed : Note
  totp_not_marked totp_enabled : Note
  sign_in_failed : Failure → Note
  sign_in_succeeded : String → Note
  logout_failed : Failure → Note
  device_registered device_revoked : String → Note
  -- main.rs, at the start and in its loops
  drop_found : (price start_time max_per_wallet : ℕ) → Note
  quantity_too_high : (quantity max_per_wallet : ℕ) → Note
  trigger_set : ℕ → Note
  listening : Note
  -- the copymint loop
  skipping_tracked : String → Note
  none_tracked : Note
  not_watching reconnecting : Failure → Note
  watching : ℕ → Note

pub data CopymintSkipReason : Type 0 where
  drop_lookup_failed : Failure → CopymintSkipReason
  not_currently_live : ℕ → ℕ → ℕ → CopymintSkipReason
  exceeds_price_ceiling : ℕ → ℕ → CopymintSkipReason
  calldata_encoding_failed : Failure → CopymintSkipReason

-- `CopymintSkipReason::actionable_hint`.
pub data Hint : Type 0 where
  raise_ceiling : ℕ → ℕ → Hint
  check_seadrop_address : Hint

pub data AckSource : Type 0 where
  sequencer backup : AckSource

-- The `detail` of a mint result.
pub data Detail : Type 0 where
  tx_hash : ℕ → Detail
  reverted : ℕ → Option ℕ → ℕ → Detail
  not_confirmed : ℕ → ℕ → Detail
  acked_not_confirmed : Redacted → ℕ → Detail
  all_failed : List (ℕ × Failure) → Detail
  panicked : Detail
  delegated_failure : Failure → Detail

pub record MintResult : Type 0 where
  pub address : ℕ
  pub success : Bool
  pub detail : Detail
  pub trigger_to_dispatch_ms : Option ℕ
  pub send_to_ack_ms : Option ℕ
  pub dispatch_to_inclusion_ms : Option ℕ
  pub prepare_age_ms : ℕ
  pub ack_source : Option AckSource
  pub acked_url : Option Redacted

pub record CopyOpportunity : Type 0 where
  pub tracked_wallet : ℕ
  pub nft_contract : ℕ
  pub fee_recipient : ℕ
  pub mint_price_wei : ℕ
  pub total_value_wei : ℕ
  pub quantity : ℕ
  pub is_free : Bool
  pub fireable : Bool

pub data ServerEvent : Type 0 where
  log : Level → Note → ℕ → ServerEvent
  armed_state : Bool → ServerEvent
  wallet_update : ℕ → String → ℕ → Bool → ServerEvent
  rpc_health : String → Bool → ℕ → ServerEvent
  trigger_fired : Bool → ServerEvent
  mint_result : MintResult → ServerEvent
  config_changed : ServerEvent
  copy_opportunity : CopyOpportunity → ServerEvent
  copymint_skipped : ℕ → ℕ → CopymintSkipReason → Option Hint → ServerEvent
  delegated_run_started : ℕ → ℕ → ServerEvent
  delegated_mint_result : ℕ → ℕ → Bool → Detail → ServerEvent
  delegated_run_complete : ℕ → ℕ → ℕ → ServerEvent
