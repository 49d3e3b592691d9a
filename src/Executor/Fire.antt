-- ===== src/Executor/Fire.antt =====
-- `fire_prepared` (mint-sniper/src/executor.rs): broadcast each prepared transaction to the sequencer
-- and to every backup RPC, wait for its receipt, and report one result. The wallets' tasks run
-- concurrently; their events stand here in the order of the batch.

use seasniper.Common.{
  ℕ, String, Option, none, some, List, [], ◌∷◌, ◌++◌, map, flat_map, first, all, enumerate_from,
  get_elem?, unwrap_or, or_else, ◌&&◌, not, str_eq, is_empty, if◌then◌else◌,
}
use seasniper.Common.Results.{Result, ok, err, is_err}
use seasniper.Failure.{Failure, send_failed, send_timed_out}
use seasniper.Url.{redact_rpc_url}
use seasniper.Bus.{AckSource, sequencer, backup}
use seasniper.Config.{Config}
use seasniper.Wallet.{Envelope, TransactionReceipt}
use seasniper.Inclusion.{BlockTicker, Method, InclusionOutcome, wait_for_receipt}
use seasniper.Net.{Net, SendAttempt}
use seasniper.Effect.{Effect, broadcast}
use seasniper.Executor.Prepare.{PreparedWallet}

-- An acknowledged send: the milliseconds that it took, and the URL.
abbrev pub Ack : Type 0
Ack = ℕ × String

unfoldable pub prefer_sequencer_ack : Option Ack → Option Ack → Option Ack
prefer_sequencer_ack sequencer_ack backup_ack = or_else sequencer_ack backup_ack

unfoldable pub classify_ack_source : String → String → AckSource
classify_ack_source sequencer_url acked_url =
    if not (is_empty sequencer_url) && str_eq acked_url sequencer_url then sequencer else backup

-- What a URL that acknowledged the transaction led to.
pub data SendAttemptOutcome : Type 0 where
  included :
      (receipt : TransactionReceipt) (send_to_ack_ms dispatch_to_inclusion_ms : ℕ) (method : Method)
      (acked_url : String)
      → SendAttemptOutcome
  timed_out : (send_to_ack_ms : ℕ) (method : Method) (acked_url : String) → SendAttemptOutcome

abbrev pub SendResult : Type 0
SendResult = Result (ℕ × Failure) SendAttemptOutcome

-- The arguments of `fire_prepared` that each wallet's task has.
pub record FireContext : Type 0 where
  pub cfg : Config
  pub providers : List String
  pub sequencer : Option String
  pub block_ticker : Option BlockTicker

unfoldable pub sequencer_answer : Net → FireContext → Envelope → String → SendAttempt → Option Ack
sequencer_answer net ctx tx provider SendAttempt.acked =
    some (net.ack_ms provider tx, ctx.cfg.sequencer_http_url)
sequencer_answer net ctx tx provider _ = none

-- `send_raw_transaction`: what is handed to the node, and its answer.
abbrev pub send_raw : Net → (provider : String) → Envelope → List Effect × SendAttempt
send_raw net provider tx = (broadcast provider tx ∷ [], net.send_raw_transaction provider tx)

-- The sequencer's send: its acknowledgement is labelled with the configured URL.
unfoldable pub sequencer_send : Net → FireContext → Envelope → List Effect × Option Ack
unfolding sequencer_answer
sequencer_send net ctx tx = elim ctx.sequencer [
  | none ↦ ([], none)
  | some provider ↦
      let (handed, answer) = send_raw net provider tx in
      (handed, sequencer_answer net ctx tx provider answer)
]

unfoldable pub outcome_of :
    Net → Envelope → String → ℕ → String → InclusionOutcome → SendAttemptOutcome
outcome_of net tx provider ack_ms url (InclusionOutcome.included receipt method) =
    included receipt ack_ms (net.inclusion_ms provider tx) method url
outcome_of net tx provider ack_ms url (InclusionOutcome.timed_out method) =
    timed_out ack_ms method url

-- Wait for the receipt of the hash that was computed when the transaction was signed.
unfoldable pub await_inclusion :
    Net → FireContext → PreparedWallet → String → ℕ → String → SendAttemptOutcome
unfolding outcome_of
await_inclusion net ctx pw provider ack_ms url =
    outcome_of net pw.raw_tx provider ack_ms url
      (wait_for_receipt ctx.block_ticker (net.looks ctx.block_ticker provider pw.tx_hash))

unfoldable pub backup_answer :
    Net → FireContext → PreparedWallet → ℕ → String → String → SendAttempt → SendResult
backup_answer net ctx pw i provider url SendAttempt.acked =
    ok (await_inclusion net ctx pw provider (net.ack_ms provider pw.raw_tx) url)
backup_answer net ctx pw i provider url (SendAttempt.rpc_error e) = err (i, send_failed e)
backup_answer net ctx pw i provider url SendAttempt.timed_out =
    err (i, send_timed_out (redact_rpc_url net.parse_url url))

-- The name of backup `i` is read off the configured list, by position.
unfoldable pub backup_send :
    Net → FireContext → PreparedWallet → ℕ × String → List Effect × SendResult
unfolding backup_answer
backup_send net ctx pw (i, provider) =
    let (handed, answer) = send_raw net provider pw.raw_tx in
    (
      handed,
      backup_answer net ctx pw i provider
          (unwrap_or (get_elem? ctx.cfg.http_rpc_urls i) (net.rpc_label i)) answer,
    )

abbrev pub handed_to : Net → FireContext → PreparedWallet → ℕ × String → List Effect
handed_to net ctx pw target = (backup_send net ctx pw target).0

abbrev pub result_of : Net → FireContext → PreparedWallet → ℕ × String → SendResult
result_of net ctx pw target = (backup_send net ctx pw target).1

-- The sends race in the code; what each hands over and answers does not depend on the others.
unfoldable pub backup_sends : Net → FireContext → PreparedWallet → List Effect × List SendResult
unfolding backup_send
backup_sends net ctx pw =
    let targets = enumerate_from 0 ctx.providers in
    (flat_map (handed_to net ctx pw) targets, map (result_of net ctx pw) targets)

unfoldable pub confirm_on :
    Net → FireContext → PreparedWallet → Option Ack → Option String → List SendResult
confirm_on net ctx pw (some (ms, url)) (some provider) =
    ok (await_inclusion net ctx pw provider ms url) ∷ []
confirm_on net ctx pw _ _ = []

-- Where no backup took the transaction and the sequencer did, its inclusion is looked for as well.
unfoldable pub with_fallback :
    Net → FireContext → PreparedWallet → Option Ack → List SendResult → List SendResult
unfolding confirm_on
with_fallback net ctx pw ack results =
    if all is_err results
    then results ++ confirm_on net ctx pw ack (or_else (first ctx.providers) ctx.sequencer)
    else results
