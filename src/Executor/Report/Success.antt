-- ===== src/Executor/Report/Success.antt =====
-- When a wallet's result may say `success` (`fire_prepared` of mint-sniper/src/executor.rs).
use seasniper.Common.{
  ℕ, ◌+◌, String, Bool, true, false, Option, none, some, List, [], ◌∷◌, ◌++◌, ◌≡◌, arith, map, any,
  first, or_else, enumerate_from, Bool-cases, inl, inr, unwrap_or, get_elem?,
}
use seasniper.Common.Results.{ok, err}
use seasniper.Wallet.{TransactionReceipt}
use seasniper.Inclusion.{wait_for_receipt, outcome, InclusionOutcome}
use seasniper.Inclusion.FirstReceipt.{wait_for_receipt-first, first_receipt, method_of}
use seasniper.Net.{Net, SendAttempt}
use seasniper.Executor.Prepare.{PreparedWallet}
use seasniper.Executor.Fire.{
  Ack, FireContext, SendResult, SendAttemptOutcome, sequencer_send, await_inclusion, outcome_of,
  backup_answer, backup_send, result_of, backup_sends, confirm_on, with_fallback,
}
use seasniper.Executor.Report.{
  Inclusion, fire_wallet, report, first_included, included_result, timed_out_result,
  sequencer_only_result, failed_result, acked_result, option_list, wallet_result, wallet_task,
  panic_result,
}
use seasniper.Executor.Report.Coverage.{targets}
use seasniper.Executor.Report.Soundness.{any-append}

abbrev has_succeeded : Option TransactionReceipt → Bool
has_succeeded (some receipt) = receipt.status
has_succeeded none = false

-- The first receipt that the node shows in time is a successful one.
abbrev pub confirms : Net → FireContext → PreparedWallet → String → Bool
confirms net ctx pw node =
    has_succeeded (first_receipt (net.looks ctx.block_ticker node pw.tx_hash))

abbrev outcome_success : SendResult → Bool
outcome_success (ok (SendAttemptOutcome.included r a i m u)) = r.status
outcome_success (ok (SendAttemptOutcome.timed_out a m u)) = false
outcome_success (err e) = false

abbrev inclusion_success : Option Inclusion → Bool
inclusion_success (some inclusion) = inclusion.0.status
inclusion_success none = false

first_included-success :
    (results : List SendResult)
    → inclusion_success (first_included results) ≡ true
    → any outcome_success results ≡ true
unfolding first_included
first_included-success [] h = ground arith
first_included-success (ok (SendAttemptOutcome.included r a i m u) ∷ results) h = ground arith
first_included-success (ok (SendAttemptOutcome.timed_out a m u) ∷ results) h =
    ground (arith, first_included-success results h)
first_included-success (err e ∷ results) h = ground (arith, first_included-success results h)

module _ (net : Net) (ctx : FireContext) (pw : PreparedWallet) where
  outcome_of-success :
      (provider : String) (ms : ℕ) (url : String) (seen : InclusionOutcome)
      (receipt : Option TransactionReceipt)
      → seen ≡ outcome (method_of ctx.block_ticker) receipt
      → outcome_success (ok (outcome_of net pw.raw_tx provider ms url seen)) ≡ has_succeeded receipt
  unfolding outcome_of outcome
  outcome_of-success provider ms url seen none e = ground arith
  outcome_of-success provider ms url seen (some receipt) e = ground arith

  await_inclusion-success :
      (provider : String) (ms : ℕ) (url : String)
      → outcome_success (ok (await_inclusion net ctx pw provider ms url))
        ≡ confirms net ctx pw provider
  unfolding await_inclusion
  await_inclusion-success provider ms url =
      outcome_of-success provider ms url
        (wait_for_receipt ctx.block_ticker (net.looks ctx.block_ticker provider pw.tx_hash))
        (first_receipt (net.looks ctx.block_ticker provider pw.tx_hash))
        (wait_for_receipt-first ctx.block_ticker (net.looks ctx.block_ticker provider pw.tx_hash))

  backup_answer-success :
      (i : ℕ) (provider url : String) (answer : SendAttempt)
      → outcome_success (backup_answer net ctx pw i provider url answer) ≡ true
      → confirms net ctx pw provider ≡ true
  unfolding backup_answer
  backup_answer-success i provider url SendAttempt.acked h =
      ground (arith, await_inclusion-success provider (net.ack_ms provider pw.raw_tx) url)
  backup_answer-success i provider url (SendAttempt.rpc_error e) h = ground arith
  backup_answer-success i provider url SendAttempt.timed_out h = ground arith

  backup_sends-success :
      (i : ℕ) (providers : List String)
      → any outcome_success (map (result_of net ctx pw) (enumerate_from i providers)) ≡ true
      → any (confirms net ctx pw) providers ≡ true
  unfolding backup_send
  backup_sends-success i [] h = ground arith
  backup_sends-success i (provider ∷ providers) h =
      let url : String = unwrap_or (get_elem? ctx.cfg.http_rpc_urls i) (net.rpc_label i) in
      let answer : SendAttempt = net.send_raw_transaction provider pw.raw_tx in
      elim (Bool-cases (outcome_success (backup_answer net ctx pw i provider url answer))) [
        | inl now ↦ ground (arith, backup_answer-success i provider url answer now)
        | inr later ↦ ground (arith, backup_sends-success (i + 1) providers (ground arith))
      ]

  confirm_on-success :
      (ack : Option Ack) (target : Option String)
      → any outcome_success (confirm_on net ctx pw ack target) ≡ true
      → any (confirms net ctx pw) (option_list target) ≡ true
  unfolding confirm_on
  confirm_on-success (some (ms, url)) (some provider) h =
      ground (arith, await_inclusion-success provider ms url)
  confirm_on-success (some (ms, url)) none h = ground arith
  confirm_on-success none target h = ground arith

  first_target :
      (p : String → Bool) (sequencer : Option String) (providers : List String)
      → any p (option_list (or_else (first providers) sequencer)) ≡ true
      → any p (option_list sequencer ++ providers) ≡ true
  first_target p none [] h = h
  first_target p none (x ∷ providers) h = ground arith
  first_target p (some s) [] h = h
  first_target p (some s) (x ∷ providers) h = ground arith

  with_fallback-success :
      (ack : Option Ack)
      → any outcome_success (with_fallback net ctx pw ack (backup_sends net ctx pw).1) ≡ true
      → any (confirms net ctx pw) (targets ctx) ≡ true
  unfolding with_fallback
  with_fallback-success ack h =
      let results : List SendResult = (backup_sends net ctx pw).1 in
      let more : List SendResult =
        confirm_on net ctx pw ack (or_else (first ctx.providers) ctx.sequencer) in
      elim (Bool-cases (any outcome_success results)) [
        | inl by_backup ↦ ground (
          arith,
          any-append (confirms net ctx pw) (option_list ctx.sequencer) ctx.providers,
          from_backup by_backup,
        )
        | inr by_none ↦ first_target (confirms net ctx pw) ctx.sequencer ctx.providers (
            confirm_on-success ack (or_else (first ctx.providers) ctx.sequencer)
              (ground (arith, any-append outcome_success results more)))
      ]
    where
      from_backup :
          any outcome_success (backup_sends net ctx pw).1 ≡ true
          → any (confirms net ctx pw) ctx.providers ≡ true
      from_backup h = unfold backup_sends in backup_sends-success 0 ctx.providers h

  report-success :
      (ack : Option Ack) (results : List SendResult)
      → (report net ctx pw ack results).success ≡ inclusion_success (first_included results)
  unfolding report included_result timed_out_result sequencer_only_result failed_result acked_result
  report-success ack results = ground arith

  -- A wallet's result says success only where some node that the transaction was sent to showed, in
  -- time, a first receipt whose status is success; a panicked task never says it.
  pub wallet_result-success :
      (wallet_result net ctx pw).success ≡ true → any (confirms net ctx pw) (targets ctx) ≡ true
  unfolding wallet_result wallet_task fire_wallet panic_result
  wallet_result-success h =
      let ack : Option Ack = (sequencer_send net ctx pw.raw_tx).1 in
      let results : List SendResult = with_fallback net ctx pw ack (backup_sends net ctx pw).1 in
      with_fallback-success ack
        (first_included-success results (ground (arith, report-success ack results)))
