-- ===== src/Examples/Fires.antt =====
-- The theorems on a fire at the example batch.
use seasniper.Common.{true, [], ◌∷◌, ◌≡◌, refl, any, flat_map, ◌+◌, ◌-◌, ◌*◌, ◌/◌, arith, All}
use seasniper.Common.Int.{wrap_i128, ◌+ℤ◌, div_trunc, ◌*ℤ◌, negsuc, pos_part, neg_part}
use seasniper.Common.Results.{ok}
use seasniper.Inclusion.{wait_for_receipt, outcome}
use seasniper.Executor.Fees.{
  apply_pct_jitter, gas_limit_of, gas_jitter_pct, max_fee_of, priority_fee_wei,
}
use seasniper.Executor.Fees.Bounds.{apply_pct_jitter-exact}
use seasniper.Executor.Prepare.{prepare_fire, quote, prepare_wallets, prepare_wallet, tx_for}
use seasniper.Executor.Prepare.Batch.{BatchFor, PaysValue, prepare_fire-BatchFor}
use seasniper.Executor.Report.{
  first_included, report, fire_prepared, fire_wallet, wallet_task, wallet_result,
}
use seasniper.Executor.Fire.{
  backup_sends, backup_send, backup_answer, await_inclusion, outcome_of, sequencer_send,
  with_fallback,
}
use seasniper.Executor.Report.Coverage.{sent, targets, to_each, fire_prepared-sent}
use seasniper.Executor.Report.Success.{confirms, wallet_result-success}
use seasniper.Examples.World.{net, cfg, wallet, prepared_wallet, call, context, node}

apply_pct_jitter-exact_example :
    apply_pct_jitter 206 (negsuc 2)
    ≡ 206 + 206 * pos_part (negsuc 2) / 100 - 206 * neg_part (negsuc 2) / 100
apply_pct_jitter-exact_example = apply_pct_jitter-exact 206 (negsuc 2) (ground arith) (ground arith)

signs : (prepare_fire net cfg (wallet ∷ []) call (node ∷ [])).1 ≡ ok (prepared_wallet ∷ [])
unfolding prepare_fire quote prepare_wallets prepare_wallet tx_for apply_pct_jitter priority_fee_wei
    gas_limit_of gas_jitter_pct max_fee_of wrap_i128 ◌+ℤ◌ div_trunc ◌*ℤ◌
signs = refl

prepare_fire-BatchFor_example :
    BatchFor 30 (22 ∷ []) (wallet ∷ []) (prepared_wallet ∷ [])
    × All (PaysValue 50) (prepared_wallet ∷ [])
prepare_fire-BatchFor_example =
    prepare_fire-BatchFor net cfg call (wallet ∷ []) (node ∷ []) (prepared_wallet ∷ []) signs

fire_prepared-sent_example :
    sent (fire_prepared net context (prepared_wallet ∷ [])).0
    ≡ flat_map (to_each (targets context)) (prepared_wallet ∷ [])
fire_prepared-sent_example = fire_prepared-sent net context (prepared_wallet ∷ [])

succeeds : (wallet_result net context prepared_wallet).success ≡ true
unfolding wallet_result fire_wallet report first_included backup_sends backup_send backup_answer
    await_inclusion outcome_of wait_for_receipt outcome sequencer_send with_fallback wallet_task
succeeds = refl

wallet_result-success_example : any (confirms net context prepared_wallet) (targets context) ≡ true
wallet_result-success_example = wallet_result-success net context prepared_wallet succeeds
