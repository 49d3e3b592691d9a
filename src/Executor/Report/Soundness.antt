-- ===== src/Executor/Report/Soundness.antt =====
-- What a wallet's result says of the nodes' answers (`fire_prepared` of mint-sniper/src/executor.rs).
use seasniper.Common.{
  ℕ, ◌+◌, String, Bool, true, false, Option, none, some, List, [], ◌∷◌, ◌++◌, ◌≡◌, refl, arith, map,
  any, all, not, ◌||◌, unwrap_or, get_elem?, is_some, enumerate_from,
}
use seasniper.Common.Results.{ok, err, is_ok, is_err}
use seasniper.Net.{Net, SendAttempt}
use seasniper.Executor.Prepare.{PreparedWallet}
use seasniper.Executor.Fire.{
  Ack, FireContext, SendResult, SendAttemptOutcome, sequencer_send, sequencer_answer, backup_answer,
  backup_send, result_of, backup_sends, confirm_on, with_fallback,
}
use seasniper.Executor.Report.{
  fire_wallet, report, first_included, first_timed_out, included_result, timed_out_result,
  sequencer_only_result, failed_result, acked_result, option_list,
}
use seasniper.Executor.Report.Coverage.{targets}

abbrev is_ack : SendAttempt → Bool
is_ack SendAttempt.acked = true
is_ack _ = false

-- The node took the wallet's transaction.
abbrev pub acks : Net → PreparedWallet → String → Bool
acks net pw node = is_ack (net.send_raw_transaction node pw.raw_tx)

pub any-append :
    {A : Type 0} (p : A → Bool) (xs ys : List A) → any p (xs ++ ys) ≡ any p xs || any p ys
any-append p [] ys = refl
any-append p (x ∷ xs) ys = ground (arith, any-append p xs ys)

-- An answer that is a success decides the report.
unfoldable answered : List SendResult → Bool
unfolding first_included first_timed_out
answered results = is_some (first_included results) || is_some (first_timed_out results)

answered-is_ok : (results : List SendResult) → answered results ≡ any is_ok results
unfolding answered first_included first_timed_out
answered-is_ok [] = refl
answered-is_ok (ok (SendAttemptOutcome.included r a i m u) ∷ results) = refl
answered-is_ok (ok (SendAttemptOutcome.timed_out a m u) ∷ results) =
    ground (arith, answered-is_ok results)
answered-is_ok (err e ∷ results) = answered-is_ok results

all-is_err : (results : List SendResult) → all is_err results ≡ not (any is_ok results)
all-is_err [] = refl
all-is_err (ok o ∷ results) = refl
all-is_err (err e ∷ results) = all-is_err results

module _ (net : Net) (ctx : FireContext) (pw : PreparedWallet) where
  backup_answer-is_ok :
      (i : ℕ) (provider url : String) (answer : SendAttempt)
      → is_ok (backup_answer net ctx pw i provider url answer) ≡ is_ack answer
  unfolding backup_answer
  backup_answer-is_ok i provider url SendAttempt.acked = refl
  backup_answer-is_ok i provider url (SendAttempt.rpc_error e) = refl
  backup_answer-is_ok i provider url SendAttempt.timed_out = refl

  backup_sends-is_ok :
      (i : ℕ) (providers : List String)
      → any is_ok (map (result_of net ctx pw) (enumerate_from i providers))
        ≡ any (acks net pw) providers
  unfolding backup_send
  backup_sends-is_ok i [] = refl
  backup_sends-is_ok i (provider ∷ providers) = ground (
    arith,
    backup_sends-is_ok (i + 1) providers,
    backup_answer-is_ok i provider (unwrap_or (get_elem? ctx.cfg.http_rpc_urls i) (net.rpc_label i))
        (net.send_raw_transaction provider pw.raw_tx),
  )

  sequencer_send-acks :
      is_some (sequencer_send net ctx pw.raw_tx).1 ≡ any (acks net pw) (option_list ctx.sequencer)
  unfolding sequencer_send sequencer_answer
  sequencer_send-acks = ground arith

  report-ack_source :
      (ack : Option Ack) (results : List SendResult)
      → is_some (report net ctx pw ack results).ack_source ≡ is_some ack || any is_ok results
  unfolding report included_result timed_out_result sequencer_only_result failed_result acked_result
  report-ack_source ack results = ground (arith, report_answered)
    where
      report_answered :
          is_some (first_included results) || is_some (first_timed_out results) ≡ any is_ok results
      report_answered = unfold answered in answered-is_ok results

  with_fallback-is_ok :
      (ack : Option Ack) (results : List SendResult)
      → is_some ack || any is_ok (with_fallback net ctx pw ack results)
        ≡ is_some ack || any is_ok results
  unfolding with_fallback confirm_on
  with_fallback-is_ok none results = ground (arith, any-append is_ok results [])
  with_fallback-is_ok (some ack) results = refl

  -- A wallet's result names who acknowledged the transaction exactly when the sequencer or some
  -- provider did.
  pub fire_wallet-ack_source :
      is_some (fire_wallet net ctx pw).1.ack_source ≡ any (acks net pw) (targets ctx)
  unfolding fire_wallet backup_sends
  fire_wallet-ack_source =
      let ack : Option Ack = (sequencer_send net ctx pw.raw_tx).1 in
      ground (
        arith,
        report-ack_source ack (with_fallback net ctx pw ack (backup_sends net ctx pw).1),
        with_fallback-is_ok ack (backup_sends net ctx pw).1,
        backup_sends-is_ok 0 ctx.providers,
        sequencer_send-acks,
        any-append (acks net pw) (option_list ctx.sequencer) ctx.providers,
      )
