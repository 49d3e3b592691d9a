-- ===== src/Executor/Report.antt =====
-- The report of a fire (`fire_prepared` and `await_all_and_report_panics` of
-- mint-sniper/src/executor.rs): which of a wallet's send results decides its `MintResult`.
pub mod Coverage
pub mod Soundness
pub mod Success
use seasniper.Common.{
  ℕ, String, Bool, false, Option, none, some, List, [], ◌∷◌, ◌++◌, map, find_map, filter_map,
  flat_map, is_nil, is_none, ◌&&◌, ◌==◌, not, ltb, unwrap_or, if◌then◌else◌,
}
use seasniper.Common.Results.{Result, ok, err}
use seasniper.Failure.{Failure, nothing_to_broadcast_to}
use seasniper.Url.{redact_rpc_url}
use seasniper.Bus.{
  AckSource, Detail, MintResult, mint_result, trigger_fired, tx_hash, reverted, not_confirmed,
  acked_not_confirmed, all_failed, panicked,
}
use seasniper.Wallet.{TransactionReceipt}
use seasniper.Net.{Net}
use seasniper.Config.{Config}
use seasniper.Effect.{Effect, emit}
use seasniper.Executor.Prepare.{PreparedWallet}
use seasniper.Executor.Fire.{
  Ack, FireContext, SendAttemptOutcome, SendResult, prefer_sequencer_ack, classify_ack_source,
  sequencer_send, backup_sends, with_fallback,
}

-- An inclusion that was seen: the receipt, when it was seen, and the backup's acknowledgement.
abbrev pub Inclusion : Type 0
Inclusion = TransactionReceipt × ℕ × Ack

abbrev pub as_included : SendAttemptOutcome → Option Inclusion
as_included (SendAttemptOutcome.included receipt ack_ms inclusion_ms method url) =
    some (receipt, inclusion_ms, (ack_ms, url))
as_included (SendAttemptOutcome.timed_out ack_ms method url) = none

abbrev pub as_timed_out : SendAttemptOutcome → Option Ack
as_timed_out (SendAttemptOutcome.included receipt ack_ms inclusion_ms method url) = none
as_timed_out (SendAttemptOutcome.timed_out ack_ms method url) = some (ack_ms, url)

abbrev pub ok_and {ℓ} : {A : Type ℓ} → (SendAttemptOutcome → Option A) → SendResult → Option A
ok_and f (ok outcome) = f outcome
ok_and f (err e) = none

abbrev pub failure_of : SendResult → Option (ℕ × Failure)
failure_of (ok outcome) = none
failure_of (err e) = some e

unfoldable pub first_included : List SendResult → Option Inclusion
first_included = find_map (ok_and as_included)

unfoldable pub first_timed_out : List SendResult → Option Ack
first_timed_out = find_map (ok_and as_timed_out)

-- A report with an acknowledgement.
acked_result : Net → FireContext → PreparedWallet → Bool → Detail → Option ℕ → Ack → MintResult
unfolding classify_ack_source
acked_result net ctx pw success detail inclusion_ms (ack_ms, url) = record {
  address = pw.address;
  success = success;
  detail = detail;
  trigger_to_dispatch_ms = some (net.trigger_to_dispatch_ms pw.raw_tx);
  send_to_ack_ms = some ack_ms;
  dispatch_to_inclusion_ms = inclusion_ms;
  prepare_age_ms = net.prepare_age_ms pw.raw_tx;
  ack_source = some (classify_ack_source ctx.cfg.sequencer_http_url url);
  acked_url = some (redact_rpc_url net.parse_url url);
}

abbrev inclusion_detail : TransactionReceipt → Detail
inclusion_detail receipt =
    if receipt.status
    then tx_hash receipt.transaction_hash
    else reverted receipt.transaction_hash receipt.block_number receipt.gas_used

included_result : Net → FireContext → PreparedWallet → Option Ack → Inclusion → MintResult
unfolding acked_result
included_result net ctx pw ack (receipt, inclusion_ms, backup_ack) =
    acked_result net ctx pw receipt.status (inclusion_detail receipt) (some inclusion_ms)
      (unwrap_or (prefer_sequencer_ack ack (some backup_ack)) backup_ack)

timed_out_result : Net → FireContext → PreparedWallet → Option Ack → Ack → MintResult
unfolding acked_result
timed_out_result net ctx pw ack backup_ack =
    acked_result net ctx pw false (not_confirmed ctx.cfg.inclusion_timeout_ms pw.tx_hash) none
      (unwrap_or (prefer_sequencer_ack ack (some backup_ack)) backup_ack)

sequencer_only_result : Net → FireContext → PreparedWallet → Ack → MintResult
unfolding acked_result
sequencer_only_result net ctx pw (ack_ms, url) =
    record (acked_result net ctx pw false
      (acked_not_confirmed (redact_rpc_url net.parse_url url) pw.tx_hash) none (ack_ms, url)) {
        ack_source = some AckSource.sequencer;
      }

failed_result : Net → PreparedWallet → List SendResult → MintResult
failed_result net pw results = record {
  address = pw.address;
  success = false;
  detail = all_failed (filter_map failure_of results);
  trigger_to_dispatch_ms = some (net.trigger_to_dispatch_ms pw.raw_tx);
  send_to_ack_ms = none;
  dispatch_to_inclusion_ms = none;
  prepare_age_ms = net.prepare_age_ms pw.raw_tx;
  ack_source = none;
  acked_url = none;
}

-- The four branches, in the code's order.
unfoldable pub report :
    Net → FireContext → PreparedWallet → Option Ack → List SendResult → MintResult
unfolding included_result timed_out_result sequencer_only_result failed_result
report net ctx pw ack results = elim (first_included results) [
  | some inclusion ↦ included_result net ctx pw ack inclusion
  | none ↦ elim (first_timed_out results) [
    | some backup_ack ↦ timed_out_result net ctx pw ack backup_ack
    | none ↦ elim ack [
      | some seq_ack ↦ sequencer_only_result net ctx pw seq_ack
      | none ↦ failed_result net pw results
    ]
  ]
]

-- The result of one wallet's task.
unfoldable pub fire_wallet : Net → FireContext → PreparedWallet → List Effect × MintResult
fire_wallet net ctx pw =
    let (to_sequencer, ack) = sequencer_send net ctx pw.raw_tx in
    let (to_backups, results) = backup_sends net ctx pw in
    (to_sequencer ++ to_backups, report net ctx pw ack (with_fallback net ctx pw ack results))

panic_result : PreparedWallet → MintResult
panic_result pw = record {
  address = pw.address;
  success = false;
  detail = panicked;
  trigger_to_dispatch_ms = none;
  send_to_ack_ms = none;
  dispatch_to_inclusion_ms = none;
  prepare_age_ms = 0;
  ack_source = none;
  acked_url = none;
}

-- `sample_fire_jitter_ms`: `gen_range` panics on an empty range, at the start of the task.
abbrev pub jitter_panics : Config → Bool
jitter_panics cfg = not (cfg.jitter_ms_max == 0) && ltb cfg.jitter_ms_max cfg.jitter_ms_min

-- The task of one wallet, or the report of its panic.
unfoldable pub wallet_task : Net → FireContext → PreparedWallet → List Effect × MintResult
unfolding panic_result
wallet_task net ctx pw =
    if jitter_panics ctx.cfg then ([], panic_result pw) else fire_wallet net ctx pw

unfoldable pub wallet_result : Net → FireContext → PreparedWallet → MintResult
wallet_result net ctx pw = (wallet_task net ctx pw).1

abbrev pub option_list : Option String → List String
option_list none = []
option_list (some s) = s ∷ []

unfoldable pub wallet_effects : Net → FireContext → PreparedWallet → List Effect
wallet_effects net ctx pw =
    (wallet_task net ctx pw).0 ++ emit (mint_result (wallet_result net ctx pw)) ∷ []

unfoldable pub fire_prepared :
    Net → FireContext → List PreparedWallet → List Effect × Result Failure (Unit {0})
fire_prepared net ctx prepared =
    let fired = emit (trigger_fired false) in
    if is_nil ctx.providers && is_none ctx.sequencer
    then (fired ∷ [], err nothing_to_broadcast_to)
    else (fired ∷ flat_map (wallet_effects net ctx) prepared, ok tt)
