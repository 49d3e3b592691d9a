-- ===== src/Executor/Prepare.antt =====
-- `prepare_fire` (mint-sniper/src/executor.rs): one signed transaction for each wallet, at its current
-- nonce, with the fees of this moment. Nothing is broadcast and no nonce moves.
pub mod Batch
use seasniper.Common.{ℕ, String, Option, none, some, List, [], ◌∷◌, first}
use seasniper.Common.Int.{ℤ}
use seasniper.Common.Results.{Result, ok, err, or_fail, ◌>>=◌}
use seasniper.Failure.{Failure, ReadError, no_warmed_providers, read_failed, signing_failed}
use seasniper.Bus.{ServerEvent, log, info, prepared}
use seasniper.Config.{Config}
use seasniper.Wallet.{ManagedWallet, TxRequest, Envelope}
use seasniper.Net.{Net, build_signed}
use seasniper.Executor.Fees.{
  apply_pct_jitter, priority_fee_wei, gas_limit_of, gas_jitter_pct, max_fee_of,
}

pub record PreparedWallet : Type 0 where
  pub address : ℕ
  pub raw_tx : Envelope
  pub tx_hash : ℕ

pub record PreparedFire : Type 0 where
  pub wallets : List PreparedWallet
  pub providers : List String
  pub sequencer : Option String

-- What every wallet's transaction has in common.
pub record MintCall : Type 0 where
  pub contract : ℕ
  pub calldata : List ℕ
  pub value : ℕ

pub record Quote : Type 0 where
  pub chain_id : ℕ
  pub base_fee : ℕ
  pub gas_limit : ℕ

-- `timed_read`: the error names what was read.
abbrev pub timed_read : Result ReadError ℕ → String → Result Failure ℕ
timed_read (ok v) what = ok v
timed_read (err e) what = err (read_failed what e)

abbrev first_address : List ManagedWallet → Option ℕ
first_address [] = none
first_address (w ∷ ws) = some w.address

unfoldable pub quote :
    Net → Config → List ManagedWallet → MintCall → List String → Result Failure Quote
quote net cfg wallets call providers = do
  reader ← or_fail (first providers) no_warmed_providers
  chain_id ← timed_read (net.get_chain_id reader) "fetching chain id"
  base_fee ← timed_read (net.get_gas_price reader) "fetching gas price"
  estimated_gas ←
      timed_read
        (net.estimate_gas reader (record {
          from = first_address wallets;
          to = call.contract;
          input = call.calldata;
          value = call.value;
        }))
        "estimating gas"
  ok (record {
    chain_id = chain_id;
    base_fee = base_fee;
    gas_limit = gas_limit_of cfg estimated_gas;
  })

unfoldable pub tx_for :
    Net → Config → MintCall → Quote → ManagedWallet → (gas_jitter_pct : ℤ) → TxRequest
tx_for net cfg call q w pct =
    let wallet_priority_fee : ℕ = apply_pct_jitter (priority_fee_wei net cfg q.base_fee) pct in
    record {
      to = call.contract;
      input = call.calldata;
      nonce = w.next_nonce;
      gas_limit = q.gas_limit;
      max_fee_per_gas = max_fee_of wallet_priority_fee q.base_fee;
      max_priority_fee_per_gas = wallet_priority_fee;
      value = call.value;
      chain_id = q.chain_id;
    }

abbrev signed : Net → ManagedWallet → Result String Envelope → Result Failure PreparedWallet
signed net w (ok envelope) =
    ok (record { address = w.address; raw_tx = envelope; tx_hash = net.hash envelope })
signed net w (err e) = err (signing_failed w.address e)

unfoldable pub prepare_wallet :
    Net → Config → MintCall → Quote → ManagedWallet → Result Failure PreparedWallet
unfolding tx_for
prepare_wallet net cfg call q w = do
  pct ← gas_jitter_pct net cfg w.address
  signed net w (build_signed net w.signer (tx_for net cfg call q w pct))

abbrev push_prepared :
    ServerEvent × PreparedWallet
    → List ServerEvent × Result Failure (List PreparedWallet)
    → List ServerEvent × Result Failure (List PreparedWallet)
push_prepared (event, pw) (events, rest) = (event ∷ events, do ok (pw ∷ (← rest)))

abbrev prepared_note : Net → ManagedWallet → PreparedWallet → ServerEvent
prepared_note net w pw = log info (prepared w.address w.next_nonce pw.tx_hash) net.now

-- The loop over the wallets; the first failure ends it.
unfoldable pub prepare_wallets :
    Net
    → Config
    → MintCall
    → Quote
    → List ManagedWallet
    → List ServerEvent × Result Failure (List PreparedWallet)
prepare_wallets net cfg call q [] = ([], ok [])
prepare_wallets net cfg call q (w ∷ ws) =
    let rest = prepare_wallets net cfg call q ws in
    elim (prepare_wallet net cfg call q w) [
      | ok pw ↦ push_prepared (prepared_note net w pw, pw) rest
      | err e ↦ ([], err e)
    ]

abbrev with_quote :
    Net
    → Config
    → MintCall
    → List ManagedWallet
    → Result Failure Quote
    → List ServerEvent × Result Failure (List PreparedWallet)
with_quote net cfg call wallets (ok q) = prepare_wallets net cfg call q wallets
with_quote net cfg call wallets (err e) = ([], err e)

unfoldable pub prepare_fire :
    Net
    → Config
    → List ManagedWallet
    → MintCall
    → List String
    → List ServerEvent × Result Failure (List PreparedWallet)
prepare_fire net cfg wallets call providers =
    with_quote net cfg call wallets (quote net cfg wallets call providers)
