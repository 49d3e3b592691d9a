-- ===== src/Control/Ready.antt =====
-- `ControlMsg::Prepare` and `ControlMsg::Disarm` (mint-sniper/src/main.rs). `none` is a panic of the task:
-- the price check reads `cfg.http_rpc_urls[0]`.
use seasniper.Common.{
  ℕ, ◌*◌, String, Bool, Option, none, some, List, [], ◌∷◌, ◌++◌, ◌&&◌, ◌==◌, ltb, not, is_nil,
  length, saturate_u256, wrap_u256, str_eq, if◌then◌else◌,
}
use seasniper.Common.Results.{Result, ok, err}
use seasniper.Failure.{unless_panic}
use seasniper.Failure.{Failure}
use seasniper.Bus.{
  info, warn, error, armed_state, no_providers_to_prepare, price_changed, price_check_failed,
  pre_signed, prepare_failed, disarmed,
}
use seasniper.Config.{Config}
use seasniper.Net.{Net}
use seasniper.Seadrop.{PublicDropInfo, fetch_public_drop}
use seasniper.Effect.{Effect, emit, log_now, emit_all}
use seasniper.Executor.Prepare.{PreparedWallet, prepare_fire}
use seasniper.Control.State.{Loop, current_call, abort_tasks, end_session}

unfoldable pub is_alarming_price_increase : ℕ → ℕ → Bool
is_alarming_price_increase old_value new_value = ltb (saturate_u256 (old_value * 2)) new_value

price_effects : Net → ℕ → ℕ → List Effect
unfolding is_alarming_price_increase
price_effects net old_value new_value =
    if old_value == new_value
    then []
    else log_now net (if is_alarming_price_increase old_value new_value then warn else info)
        (price_changed old_value new_value)
      ∷ []

-- The value that the fresh price asks for, or the last known one, and what is logged.
unfoldable pub recheck_price : Net → Config → ℕ → Result Failure PublicDropInfo → ℕ × List Effect
unfolding price_effects
recheck_price net cfg value (ok drop) =
    let new_value = wrap_u256 (drop.mint_price_wei * cfg.quantity_per_wallet) in
    (new_value, price_effects net value new_value)
recheck_price net cfg value (err e) = (value, log_now net warn (price_check_failed e) ∷ [])

abbrev pub rechecks_price : Config → Bool
rechecks_price cfg = str_eq cfg.mint_mode "seadrop" && not (str_eq cfg.trigger_mode "timestamp")

unfoldable pub fetch_first : Net → Config → Loop → List String → Option (ℕ × List Effect)
fetch_first net cfg s [] = none
fetch_first net cfg s (url ∷ urls) =
    let r = fetch_public_drop net url s.contract s.admin_watch_target in
    unless_panic r (recheck_price net cfg s.mint_value r)

unfoldable pub fresh_value : Net → Config → Loop → Option (ℕ × List Effect)
unfolding fetch_first
fresh_value net cfg s =
    if rechecks_price cfg then fetch_first net cfg s cfg.http_rpc_urls else some (s.mint_value, [])

unfoldable pub store_prepared :
    Net → Loop → Result Failure (List PreparedWallet) → Loop × List Effect
store_prepared net s (ok wallets) = (
  record s {
    prepared_fire = some (record {
      wallets = wallets;
      providers = s.warmed_providers;
      sequencer = s.warmed_sequencer;
    });
  },
  log_now net info (pre_signed (length wallets)) ∷ [],
)
store_prepared net s (err e) = (s, log_now net error (prepare_failed e) ∷ [])

unfoldable pub sign_all : Net → Config → Loop → Loop × List Effect
unfolding store_prepared
sign_all net cfg s =
    let (events, result) = prepare_fire net cfg s.wallets (current_call s) s.warmed_providers in
    let (t, effects) = store_prepared net s result in (t, emit_all events ++ effects)

unfoldable pub sign_at : Net → Config → Loop → ℕ × List Effect → Loop × List Effect
sign_at net cfg s (value, events) =
    let (t, effects) = sign_all net cfg (record s { mint_value = value }) in (t, events ++ effects)

-- What signing at a value ends with.
abbrev pub signing : Net → Config → Loop → ℕ → Result Failure (List PreparedWallet)
signing net cfg s value =
    (prepare_fire net cfg s.wallets (current_call (record s { mint_value = value }))
      s.warmed_providers).1

unfoldable pub handle_prepare : Net → Config → Loop → Option (Loop × List Effect)
unfolding sign_at
handle_prepare net cfg s =
    if is_nil s.warmed_providers
    then some (s, log_now net error no_providers_to_prepare ∷ [])
    else (elim (fresh_value net cfg s) [
      | none ↦ none
      | some fresh ↦ unless_panic (signing net cfg s fresh.0) (sign_at net cfg s fresh)
    ])

unfoldable pub handle_disarm : Net → Loop → Loop × List Effect
unfolding end_session
handle_disarm net s =
    (end_session s, abort_tasks s ++ emit (armed_state Bool.false) ∷ log_now net warn disarmed ∷ [])
