-- ===== src/Delegated/Run.antt =====
-- What comes before a delegated run fires: the derivation (mint-sniper/src/delegated/wallet_derivation.rs),
-- the preflight (preflight.rs) and the checks of `run_delegated_mint` (executor.rs).
use seasniper.Common.{
  ℕ, zero, suc, ◌+◌, ◌*◌, String, some, List, [], ◌∷◌, map, first, is_empty, ◌==◌, saturate_u256,
}
use seasniper.Common.Results.{Result, ok, err, or_fail, bail_if, ◌>>=◌, ◌>>◌}
use seasniper.Failure.{
  Failure, no_delegates, bad_mnemonic, derivation_failed, bad_rpc_url, preflight_failed,
  minter_mismatch, preflight_refused, no_mnemonic_env, mnemonic_unset, no_http_rpc,
  bad_nft_contract, bad_fee_recipient,
}
use seasniper.Bus.{
  ServerEvent, delegated_run_started, log, error, delegated_refused, delegated_preflight,
}
use seasniper.Config.{Config}
use seasniper.Wallet.{ManagedWallet, ProbeTx}
use seasniper.Net.{Net}
use seasniper.Seadrop.{fetch_public_drop, encode_mint_public, resolve_seadrop_address}
use seasniper.Executor.Prepare.{timed_read}
use seasniper.Delegated.{Plan, Turn, encode_mint_public_delegated, run_firing}

-- `for i in 1..=delegate_count`, from an index on, for so many more.
unfoldable pub receivers_from : Net → (parent index count : ℕ) → Result Failure (List ℕ)
receivers_from net parent index zero = ok []
receivers_from net parent index (suc count) = do
  key ← or_fail (net.child_key parent index) (derivation_failed index)
  rest ← receivers_from net parent (suc index) count
  ok (key.address ∷ rest)

unfoldable pub derive_operator_and_receivers :
    Net → (mnemonic : String) (delegate_count : ℕ) → Result Failure (ManagedWallet × List ℕ)
derive_operator_and_receivers net mnemonic count = do
  bail_if (count == 0) no_delegates
  parent ← or_fail (net.parent_key mnemonic) bad_mnemonic
  operator ← or_fail (net.child_key parent 0) (derivation_failed 0)
  receivers ← receivers_from net parent 1 count
  ok (operator, receivers)

pub data PreflightOutcome : Type 0 where
  pre_ok : (estimated_max_spend_wei : ℕ) → PreflightOutcome
  pre_mismatch pre_failure : (revert_reason : String) → PreflightOutcome

abbrev pub call_of : (seadrop operator value : ℕ) → List ℕ → ProbeTx
call_of seadrop operator value calldata = record {
  from = some operator;
  to = seadrop;
  input = calldata;
  value = value;
}

abbrev spend_of : (value gas price count : ℕ) → ℕ
spend_of value gas price count =
    saturate_u256
      (saturate_u256 (value * count) + saturate_u256 (saturate_u256 (gas * price) * count))

-- Both calls go through: the most that the run can cost.
unfoldable pub estimate_spend :
    Net → (url : String) → ProbeTx → (value count : ℕ) → Result Failure PreflightOutcome
estimate_spend net url tx value count = do
  gas ← timed_read (net.estimate_gas url tx) "estimating gas for the delegated call"
  price ← timed_read (net.get_gas_price url) "fetching gas price"
  ok (pre_ok (spend_of value gas price count))

-- The two simulated calls: the payer as the minter, and the receiver.
unfoldable pub compare_calls :
    Net
    → (url : String) → (delegated : ProbeTx) (value count : ℕ)
    → (zero_result delegated_result : Result String (Unit {0})) → Result Failure PreflightOutcome
compare_calls net url tx value count (ok _) (err e) = ok (pre_mismatch e)
compare_calls net url tx value count (err e) (err _) = ok (pre_failure e)
compare_calls net url tx value count (err e) (ok _) = ok (pre_failure e)
compare_calls net url tx value count (ok _) (ok _) = estimate_spend net url tx value count

unfoldable pub run_preflight :
    Net
    → (url : String)
    → (seadrop nft_contract fee_recipient operator receiver quantity delegate_count : ℕ)
    → Result Failure PreflightOutcome
run_preflight net url seadrop nft fee operator receiver quantity count = do
  _ ← or_fail (net.parse_url url) (bad_rpc_url url)
  drop ← fetch_public_drop net url seadrop nft
  let value = saturate_u256 (drop.mint_price_wei * quantity)
  zero_calldata ← encode_mint_public net nft fee quantity
  delegated_calldata ← encode_mint_public_delegated net nft fee receiver quantity
  let delegated = call_of seadrop operator value delegated_calldata
  compare_calls net url delegated value count
      (net.call url (call_of seadrop operator value zero_calldata)) (net.call url delegated)

-- What the run needs of the configuration.
pub record Setting : Type 0 where
  pub operator : ManagedWallet
  pub receivers : List ℕ
  pub seadrop : ℕ
  pub nft_contract : ℕ
  pub fee_recipient : ℕ
  pub url : String
  pub first_receiver : ℕ

unfoldable pub setting_of : Net → Config → Result Failure Setting
setting_of net cfg = do
  bail_if (is_empty cfg.delegate_mnemonic_env) no_mnemonic_env
  mnemonic ← or_fail (net.env_var cfg.delegate_mnemonic_env) mnemonic_unset
  keys ← derive_operator_and_receivers net mnemonic cfg.delegate_count
  seadrop ← resolve_seadrop_address net cfg.seadrop_address
  nft ← or_fail (net.parse_address cfg.nft_contract) bad_nft_contract
  fee ← or_fail (net.parse_address cfg.fee_recipient) bad_fee_recipient
  url ← or_fail (first cfg.http_rpc_urls) no_http_rpc
  receiver ← or_fail (first keys.1) no_delegates
  ok (record {
    operator = keys.0;
    receivers = keys.1;
    seadrop = seadrop;
    nft_contract = nft;
    fee_recipient = fee;
    url = url;
    first_receiver = receiver;
  })

-- The plan of the calls, with a fresh read of the price, and the operator's nonce.
unfoldable pub plan_of : Net → Config → Setting → Result Failure (Plan × ℕ)
plan_of net cfg s = do
  drop ← fetch_public_drop net s.url s.seadrop s.nft_contract
  _ ← or_fail (net.parse_url s.url) (bad_rpc_url s.url)
  chain_id ← timed_read (net.get_chain_id s.url) "fetching chain id"
  nonce ← timed_read (net.get_transaction_count s.url s.operator.address) "fetching operator nonce"
  ok (
    record {
      url = s.url;
      seadrop = s.seadrop;
      nft_contract = s.nft_contract;
      fee_recipient = s.fee_recipient;
      operator = s.operator;
      value_per_call = saturate_u256 (drop.mint_price_wei * cfg.quantity_per_wallet);
      chain_id = chain_id;
    },
    nonce,
  )

abbrev pub turns_of : (ℕ → Net) → List ℕ → List Turn
turns_of worlds = map (λ receiver. record { net = worlds receiver; receiver = receiver })

-- The firing of a plan, in the world of each receiver's turn.
unfoldable pub fire_plan :
    Config
    → (worlds : ℕ → Net) → Setting
    → Result Failure (Plan × ℕ)
    → List ServerEvent × Result Failure (Unit {0})
fire_plan cfg worlds s (err e) = ([], err e)
fire_plan cfg worlds s (ok (plan, nonce)) =
    ((run_firing cfg plan nonce (turns_of worlds s.receivers)).0, ok tt)

unfoldable pub after_preflight :
    Net
    → Config
    → (worlds : ℕ → Net) → Setting
    → Result Failure PreflightOutcome
    → List ServerEvent × Result Failure (Unit {0})
after_preflight net cfg worlds s (err e) = ([], err (preflight_failed e))
after_preflight net cfg worlds s (ok (pre_mismatch reason)) =
    (log error (delegated_refused reason) net.now ∷ [], err (minter_mismatch reason))
after_preflight net cfg worlds s (ok (pre_failure reason)) =
    (log error (delegated_preflight reason) net.now ∷ [], err (preflight_refused reason))
after_preflight net cfg worlds s (ok (pre_ok spend)) =
    let (events, result) = fire_plan cfg worlds s (plan_of net cfg s) in
    (delegated_run_started cfg.delegate_count spend ∷ events, result)

unfoldable pub run_delegated_mint :
    Net → Config → (worlds : ℕ → Net) → List ServerEvent × Result Failure (Unit {0})
run_delegated_mint net cfg worlds = elim (setting_of net cfg) [
  | err e ↦ ([], err e)
  | ok s ↦ after_preflight net cfg worlds s (
      run_preflight net s.url s.seadrop s.nft_contract s.fee_recipient s.operator.address
        s.first_receiver cfg.quantity_per_wallet cfg.delegate_count)
]
