-- ===== src/Wallet.antt =====
-- Wallets and transactions: `ManagedWallet` (mint-sniper/src/wallet.rs), and what the code puts in and
-- reads from the transaction types of the crate `alloy`. An address and a hash are numbers.
use seasniper.Common.{ℕ, Bool, Option, List}

pub record ManagedWallet : Type 0 where
  pub signer : ℕ
  pub address : ℕ
  pub next_nonce : ℕ

pub record TxRequest : Type 0 where
  pub to : ℕ
  pub input : List ℕ
  pub nonce : ℕ
  pub gas_limit : ℕ
  pub max_fee_per_gas : ℕ
  pub max_priority_fee_per_gas : ℕ
  pub value : ℕ
  pub chain_id : ℕ

-- A signed transaction, in place of its EIP-2718 bytes. A signature stands with the key that made it, which is
-- the one that recovery from the bytes gives.
pub record Envelope : Type 0 where
  pub key : ℕ
  pub request : TxRequest
  pub signature : ℕ

-- The call that gas is estimated for: `from` is set where there is a first wallet.
pub record ProbeTx : Type 0 where
  pub from : Option ℕ
  pub to : ℕ
  pub input : List ℕ
  pub value : ℕ

pub record TransactionReceipt : Type 0 where
  pub transaction_hash : ℕ
  pub status : Bool
  pub block_number : Option ℕ
  pub gas_used : ℕ
