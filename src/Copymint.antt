-- ===== src/Copymint.antt =====
-- Copymint (mint-sniper/src/copymint.rs): what becomes of a tracked wallet's pending `mintPublic` call, of
-- a manual fire, and the eligibility report. `best` is `AppState::best_http_rpc_url`; `none` as an answer
-- is a panic, where the code falls back to `cfg.http_rpc_urls[0]`.
pub mod Decisions
pub mod Watch
pub mod Eligibility
pub mod Decoding
pub mod Loop
pub mod Traced
pub mod Verdicts
use seasniper.Common.{
  ℕ, suc, ◌+◌, ◌-◌, ◌*◌, String, Bool, true, false, Option, none, some, List, [], ◌∷◌, ◌++◌, ◌&&◌,
  ◌||◌, not, ltb, leb, ◌==◌, first, get_elem?, is_nil, length, count_if, saturate_u64, wrap_u256,
  if◌then◌else◌,
}
use seasniper.Common.Results.{Result, ok, err, or_fail, bail_if, ◌>>=◌, ◌>>◌}
use seasniper.Failure.{unless_panic}
use seasniper.Failure.{
  Failure, short_calldata, bad_calldata, bad_nft_contract, bad_fee_recipient, no_wallets_configured,
  bad_wallet_address, not_live, over_ceiling,
}
use seasniper.Bus.{
  ServerEvent, CopyOpportunity, CopymintSkipReason, Hint, raise_ceiling, check_seadrop_address,
  warn, error, copy_opportunity, copymint_skipped, Note, copymint_error, drop_lookup_failed,
  drop_not_live, opportunity_free, opportunity_paid, opportunity_too_dear, calldata_failed,
  manual_copymint,
}
use seasniper.Config.{Config}
use seasniper.Net.{Net, DynSolValue, address}
use seasniper.Seadrop.{
  PublicDropInfo, MintStats, fetch_public_drop, fetch_mint_stats, encode_mint_public,
  resolve_seadrop_address,
}
use seasniper.Effect.{Effect, emit, send, fire_copymint, log_now}

unfoldable pub actionable_hint : CopymintSkipReason → Option Hint
actionable_hint (CopymintSkipReason.exceeds_price_ceiling total ceiling) =
    some (raise_ceiling total ceiling)
actionable_hint (CopymintSkipReason.drop_lookup_failed e) = some check_seadrop_address
actionable_hint (CopymintSkipReason.not_currently_live s e n) = none
actionable_hint (CopymintSkipReason.calldata_encoding_failed e) = none

unfoldable pub emit_skip : ℕ → ℕ → CopymintSkipReason → Effect
emit_skip tracked_wallet nft_contract reason =
    emit (copymint_skipped tracked_wallet nft_contract reason (actionable_hint reason))

unfoldable pub should_auto_fire : (is_free copymint_auto_fire_free : Bool) → Bool
should_auto_fire is_free copymint_auto_fire_free = is_free && copymint_auto_fire_free

-- `best.unwrap_or_else(|| cfg.http_rpc_urls[0].clone())`.
unfoldable pub rpc_for_reads : Option String → Config → Option String
rpc_for_reads (some url) cfg = some url
rpc_for_reads none cfg = first cfg.http_rpc_urls

unfoldable pub is_live : PublicDropInfo → ℕ → Bool
is_live drop now = leb drop.start_time now && leb now drop.end_time

unfoldable pub total_value : Config → PublicDropInfo → ℕ
total_value cfg drop = wrap_u256 (drop.mint_price_wei * cfg.quantity_per_wallet)

unfoldable pub is_fireable : Config → PublicDropInfo → Bool
is_fireable cfg drop =
    (drop.mint_price_wei == 0) || leb (total_value cfg drop) cfg.max_copymint_price_wei

opportunity_note : ℕ → ℕ → ℕ → (is_free fireable : Bool) → Note
opportunity_note wallet nft value true fireable = opportunity_free wallet nft
opportunity_note wallet nft value false true = opportunity_paid wallet nft value
opportunity_note wallet nft value false false = opportunity_too_dear wallet nft value

-- Sending the message, or the report of calldata that could not be built.
unfoldable pub auto_fire : Net → ℕ → ℕ → ℕ → ℕ → Result Failure (List ℕ) → List Effect
auto_fire net tracked_wallet nft_contract seadrop value (ok calldata) =
    send (fire_copymint seadrop calldata value) ∷ []
auto_fire net tracked_wallet nft_contract seadrop value (err e) =
    log_now net error (calldata_failed nft_contract e)
    ∷ emit_skip tracked_wallet nft_contract (CopymintSkipReason.calldata_encoding_failed e)
    ∷ []

-- A live drop: the opportunity's card and log line, the skip of one that is too dear, the auto-fire.
unfoldable pub handle_live :
    Net
    → Config
    → (seadrop tracked_wallet nft_contract fee_recipient : ℕ) → PublicDropInfo
    → List Effect
unfolding opportunity_note auto_fire
handle_live net cfg seadrop tracked_wallet nft_contract fee_recipient drop =
    let is_free = drop.mint_price_wei == 0 in
    let value = total_value cfg drop in
    let fireable = is_fireable cfg drop in
    emit (
      copy_opportunity (record {
        tracked_wallet = tracked_wallet;
        nft_contract = nft_contract;
        fee_recipient = fee_recipient;
        mint_price_wei = drop.mint_price_wei;
        total_value_wei = value;
        quantity = cfg.quantity_per_wallet;
        is_free = is_free;
        fireable = fireable;
      }))
    ∷ log_now net warn (opportunity_note tracked_wallet nft_contract value is_free fireable)
    ∷ ((if not is_free && not fireable
          then emit_skip tracked_wallet nft_contract
              (CopymintSkipReason.exceeds_price_ceiling value cfg.max_copymint_price_wei)
            ∷ []
          else [])
        ++ (if should_auto_fire is_free cfg.copymint_auto_fire_free
            then auto_fire net tracked_wallet nft_contract seadrop value
                (encode_mint_public net nft_contract fee_recipient cfg.quantity_per_wallet)
            else []))

unfoldable pub handle_drop :
    Net
    → Config
    → (seadrop tracked_wallet nft_contract fee_recipient : ℕ) → Result Failure PublicDropInfo
    → List Effect
handle_drop net cfg seadrop tracked_wallet nft_contract fee_recipient (ok drop) =
    if is_live drop net.now
    then handle_live net cfg seadrop tracked_wallet nft_contract fee_recipient drop
    else log_now net warn
        (drop_not_live tracked_wallet nft_contract drop.start_time drop.end_time net.now)
      ∷ emit_skip tracked_wallet nft_contract
          (CopymintSkipReason.not_currently_live drop.start_time drop.end_time net.now)
      ∷ []
handle_drop net cfg seadrop tracked_wallet nft_contract fee_recipient (err e) =
    log_now net warn (Note.drop_lookup_failed tracked_wallet nft_contract e)
    ∷ emit_skip tracked_wallet nft_contract (CopymintSkipReason.drop_lookup_failed e)
    ∷ []

unfoldable pub handle_candidate :
    Net
    → Config
    → Option String
    → (tracked_wallet nft_contract fee_recipient : ℕ) → Option (List Effect)
handle_candidate net cfg best tracked_wallet nft_contract fee_recipient =
    elim (resolve_seadrop_address net cfg.seadrop_address) [
      | err e ↦ some (log_now net error (copymint_error e) ∷ [])
      | ok seadrop ↦ elim (rpc_for_reads best cfg) [
        | none ↦ none
        | some url ↦
            let r = fetch_public_drop net url seadrop nft_contract in
            unless_panic r (handle_drop net cfg seadrop tracked_wallet nft_contract fee_recipient r)
      ]
    ]

-- The manual fire after the drop is read: what it sends, and the value that it answers.
unfoldable pub fire_verified :
    Net
    → Config
    → (seadrop nft_contract fee_recipient : ℕ) → PublicDropInfo
    → Result Failure (List Effect × ℕ)
fire_verified net cfg seadrop nft_contract fee_recipient drop = do
  let value = total_value cfg drop
  bail_if (not (is_live drop net.now)) (not_live drop.start_time drop.end_time net.now)
  bail_if (not (is_fireable cfg drop)) (over_ceiling value cfg.max_copymint_price_wei)
  calldata ← encode_mint_public net nft_contract fee_recipient cfg.quantity_per_wallet
  ok (
    log_now net warn (manual_copymint nft_contract value)
        ∷ send (fire_copymint seadrop calldata value)
        ∷ [],
    value,
  )

unfoldable pub verify_and_fire :
    Net
    → Config
    → Option String
    → (nft_contract fee_recipient : ℕ) → Option (Result Failure (List Effect × ℕ))
verify_and_fire net cfg best nft_contract fee_recipient =
    elim (resolve_seadrop_address net cfg.seadrop_address) [
      | err e ↦ some (err e)
      | ok seadrop ↦ elim (rpc_for_reads best cfg) [
        | none ↦ none
        | some url ↦
            let r = fetch_public_drop net url seadrop nft_contract in
            unless_panic r
              (r >>= λ drop. fire_verified net cfg seadrop nft_contract fee_recipient drop)
      ]
    ]
