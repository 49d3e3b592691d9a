-- ===== src/Delegated.antt =====
-- The delegated mint (mint-sniper/src/delegated/preflight.rs and executor.rs): one operator mints to each
-- derived receiver in turn, and pays.
pub mod Firing
pub mod Run
pub mod Refusals
use seasniper.Common.{
  ℕ, suc, ◌+◌, ◌*◌, ◌/◌, min, String, Bool, true, false, Option, none, some, List, [], ◌∷◌, ◌++◌,
  first, is_empty, wrap_u64, wrap_u128, saturate_u128, saturate_u256, if◌then◌else◌,
}
use seasniper.Common.Results.{Result, ok, err, or_fail, bail_if, ◌>>=◌, ◌>>◌}
use seasniper.Failure.{
  Failure, ReadError, encoding_failed, read_failed, send_failed, signing_failed,
}
use seasniper.Bus.{
  ServerEvent, Detail, delegated_mint_result, delegated_run_complete, delegated_failure, tx_hash,
  reverted, not_confirmed,
}
use seasniper.Config.{Config}
use seasniper.Wallet.{ManagedWallet, TxRequest, Envelope, ProbeTx, TransactionReceipt}
use seasniper.Inclusion.{Look, seen}
use seasniper.Net.{Net, build_signed, SendAttempt, DynSolValue, address, uint}
use seasniper.Seadrop.{PublicDropInfo, encode_mint_public, fetch_public_drop}
use seasniper.Executor.Prepare.{timed_read}
use seasniper.Executor.Fees.{priority_fee_wei, gas_limit_of, max_fee_of}

unfoldable pub encode_mint_public_delegated :
    Net → (nft_contract fee_recipient minter_if_not_payer quantity : ℕ) → Result Failure (List ℕ)
encode_mint_public_delegated net nft fee_recipient minter quantity =
    or_fail
      (net.abi_encode_input
        (address nft ∷ address fee_recipient ∷ address minter ∷ uint quantity 256 ∷ []))
      encoding_failed

-- What all receivers' mints have in common.
pub record Plan : Type 0 where
  pub url : String
  pub seadrop : ℕ
  pub nft_contract : ℕ
  pub fee_recipient : ℕ
  pub operator : ManagedWallet
  pub value_per_call : ℕ
  pub chain_id : ℕ

-- The loop's variables. `nonce` moves only when a receipt is seen.
pub record Tally : Type 0 where
  pub nonce : ℕ
  pub minted : ℕ
  pub attempted : ℕ
  pub total_cost_wei : ℕ

-- The world at each receiver's turn.
pub record Turn : Type 0 where
  pub net : Net
  pub receiver : ℕ

abbrev tx_of : Net → Config → Plan → (nonce base_fee gas : ℕ) → List ℕ → TxRequest
tx_of net cfg plan nonce base_fee gas calldata = record {
  to = plan.seadrop;
  input = calldata;
  nonce = nonce;
  gas_limit = gas_limit_of cfg gas;
  max_fee_per_gas = max_fee_of (priority_fee_wei net cfg base_fee) base_fee;
  max_priority_fee_per_gas = priority_fee_wei net cfg base_fee;
  value = plan.value_per_call;
  chain_id = plan.chain_id;
}

abbrev signed_by : ManagedWallet → Result String Envelope → Result Failure Envelope
signed_by w (ok envelope) = ok envelope
signed_by w (err e) = err (signing_failed w.address e)

abbrev probe_of : Plan → List ℕ → ProbeTx
probe_of plan calldata = record {
  from = some plan.operator.address;
  to = plan.seadrop;
  input = calldata;
  value = plan.value_per_call;
}

-- The steps that a failure of ends the receiver's turn: the signed transaction, and the gas price.
unfoldable pub build : Net → Config → Plan → (nonce receiver : ℕ) → Result Failure (Envelope × ℕ)
build net cfg plan nonce receiver = do
  calldata ←
      encode_mint_public_delegated net plan.nft_contract plan.fee_recipient receiver
        cfg.quantity_per_wallet
  base_fee ← timed_read (net.get_gas_price plan.url) "fetching gas price"
  gas ← timed_read (net.estimate_gas plan.url (probe_of plan calldata)) "estimating gas"
  let tx = tx_of net cfg plan nonce base_fee gas calldata
  envelope ← signed_by plan.operator (build_signed net plan.operator.signer tx)
  ok (envelope, base_fee)

abbrev pub cost_of : Plan → (base_fee gas_used total : ℕ) → ℕ
cost_of plan base_fee gas_used total =
    saturate_u256
      (saturate_u256 (total + plan.value_per_call) + saturate_u256 (gas_used * base_fee))

-- The receipt loop, over the answers before the timeout.
unfoldable pub first_receipt : List Look → Option TransactionReceipt
first_receipt [] = none
first_receipt (l ∷ ls) = elim (seen l.answer) [ some r ↦ some r | none ↦ first_receipt ls ]

-- How a turn ends: with a receipt, without one in time, or before there was anything to wait for. The
-- calls here have no time limit of their own: `timed_out` of `Net` stands for an error of the transport.
pub data TurnEnd : Type 0 where
  receipt : Envelope → (base_fee : ℕ) → TransactionReceipt → TurnEnd
  no_receipt : Envelope → TurnEnd
  -- Handed to the node, whose answer was an error.
  not_taken : Envelope → Failure → TurnEnd
  not_sent : Failure → TurnEnd

abbrev sent_end : Net → Plan → Envelope → ℕ → SendAttempt → TurnEnd
sent_end net plan envelope base_fee SendAttempt.acked =
    elim (first_receipt (net.looks none plan.url (net.hash envelope))) [
      | some r ↦ receipt envelope base_fee r
      | none ↦ no_receipt envelope
    ]
sent_end net plan envelope base_fee (SendAttempt.rpc_error e) = not_taken envelope (send_failed e)
sent_end net plan envelope base_fee SendAttempt.timed_out =
    not_taken envelope (send_failed "timed out")

abbrev built_end : Net → Plan → Result Failure (Envelope × ℕ) → TurnEnd
built_end net plan (err e) = not_sent e
built_end net plan (ok (envelope, base_fee)) =
    sent_end net plan envelope base_fee (net.send_raw_transaction plan.url envelope)

unfoldable pub take_turn : Config → Plan → (nonce : ℕ) → Turn → TurnEnd
take_turn cfg plan nonce turn =
    built_end turn.net plan (build turn.net cfg plan nonce turn.receiver)

abbrev result_event : Net → Config → (index receiver : ℕ) → TurnEnd → ServerEvent
result_event net cfg i receiver (not_sent e) =
    delegated_mint_result i receiver false (delegated_failure e)
result_event net cfg i receiver (not_taken envelope e) =
    delegated_mint_result i receiver false (delegated_failure e)
result_event net cfg i receiver (no_receipt envelope) =
    delegated_mint_result i receiver false
      (not_confirmed cfg.inclusion_timeout_ms (net.hash envelope))
result_event net cfg i receiver (receipt envelope base_fee r) =
    delegated_mint_result i receiver r.status (
      if r.status
      then tx_hash (net.hash envelope)
      else reverted (net.hash envelope) r.block_number r.gas_used)

abbrev attempt_more : Tally → Tally
attempt_more t = record t { attempted = suc t.attempted }

abbrev pub after_turn : Plan → Tally → TurnEnd → Tally
after_turn plan t (not_sent e) = attempt_more t
after_turn plan t (not_taken envelope e) = attempt_more t
after_turn plan t (no_receipt envelope) = attempt_more t
after_turn plan t (receipt envelope base_fee r) = record t {
  nonce = wrap_u64 (t.nonce + 1);
  attempted = suc t.attempted;
  minted = if r.status then suc t.minted else t.minted;
  total_cost_wei =
      if r.status then cost_of plan base_fee r.gas_used t.total_cost_wei else t.total_cost_wei;
}

abbrev pub ends_run : TurnEnd → Bool
ends_run (no_receipt envelope) = true
ends_run _ = false

-- `'firing`: the loop over the receivers; a receipt that does not come ends it. `i` is `receiver_index`.
unfoldable pub fire_all :
    Config → Plan → (i : ℕ) → Tally → List Turn → List ServerEvent × (List TurnEnd × Tally)
fire_all cfg plan i t [] = ([], ([], t))
fire_all cfg plan i t (turn ∷ turns) =
    let end = take_turn cfg plan t.nonce turn in
    let event = result_event turn.net cfg i turn.receiver end in
    let (events, (ends, last)) = fire_all cfg plan (suc i) (after_turn plan t end) turns in
    if ends_run end
    then (event ∷ [], (end ∷ [], after_turn plan t end))
    else (event ∷ events, (end ∷ ends, last))

-- The run from the operator's nonce on, with its last event.
unfoldable pub run_firing : Config → Plan → (nonce : ℕ) → List Turn → List ServerEvent × Tally
run_firing cfg plan nonce turns =
    let start : Tally = record { nonce = nonce; minted = 0; attempted = 0; total_cost_wei = 0 } in
    let (events, (ends, last)) = fire_all cfg plan 1 start turns in
    (events ++ delegated_run_complete last.minted last.attempted last.total_cost_wei ∷ [], last)
