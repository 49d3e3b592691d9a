-- ===== src/Net.antt =====
-- The outside world as one step of the program finds it: what the RPC nodes, the sockets, the clock,
-- the signer, the random sampler and the parsers of other crates answer. A call that the code makes
-- at most once in a step, or whose answer it uses once, is a function of its arguments.
use seasniper.Common.{ℕ, String, Option, List, Bool}
use seasniper.Common.Int.{ℤ}
use seasniper.Common.Results.{Result, ok, err}
use seasniper.Failure.{ReadError}
use seasniper.Url.{Url}
use seasniper.Wallet.{ManagedWallet, TxRequest, ProbeTx, Envelope}
use seasniper.Inclusion.{BlockTicker, Look, Subscribing}

-- What the write-only sequencer answers to a read.
pub data SequencerAnswer : Type 0 where
  answered error_response unreachable no_answer : SequencerAnswer

-- `SendAttempt` of executor.rs.
pub data SendAttempt : Type 0 where
  acked : SendAttempt
  rpc_error : String → SendAttempt
  timed_out : SendAttempt

-- A value of the crate's `DynSolValue`, as far as the code builds or reads one.
pub data DynSolValue : Type 0 where
  address : ℕ → DynSolValue
  uint : ℕ → ℕ → DynSolValue
  other : DynSolValue

-- The six decoded words of `getPublicDrop`.
pub record PublicDropWords : Type 0 where
  pub mint_price : ℕ
  pub start_time : ℕ
  pub end_time : ℕ
  pub max_total_mintable_by_wallet : ℕ
  pub fee_bps : ℕ
  pub restrict_fee_recipients : Bool

-- The three decoded words of `getMintStats`.
pub record MintStatsWords : Type 0 where
  pub minter_num_minted : ℕ
  pub current_total_supply : ℕ
  pub max_supply : ℕ

-- `ApiResponse` and `ApiResult` of goplus.rs. The flag is an `i64` that is compared with 0.
pub record ApiResult : Type 0 where
  pub malicious_nft_contract : Option ℤ
  pub create_block_number : Option ℕ

pub record ApiResponse : Type 0 where
  pub code : ℤ
  pub result : Option ApiResult

-- The answer to the clock check's HEAD request: how long it took, its `Date` header where it is text, and the
-- local time at which it was sent, which an older clock than the epoch does not have.
pub record DateReply : Type 0 where
  pub rtt : Option ℕ
  pub date : Option String
  pub sent_at : Option ℕ

pub record Net : Type 0 where
  pub now : ℕ
  pub parse_url : String → Option Url
  pub parse_address : String → Option ℕ
  pub get_block_number : String → Result ReadError ℕ
  pub sequencer_chain_id : String → SequencerAnswer
  pub get_chain_id : String → Result ReadError ℕ
  pub get_gas_price : String → Result ReadError ℕ
  pub estimate_gas : String → ProbeTx → Result ReadError ℕ
  -- `((base_fee as f64) * multiplier) as u128`, and `(cap * 1e9) as u128`, of bit patterns.
  pub fee_times : ℕ → ℕ → ℕ
  pub gwei_to_wei : ℕ → ℕ
  -- `gen_range(-pct..=pct)`, for the wallet of this address.
  pub sample_gas_jitter : ℕ → ℕ → ℤ
  pub sign : (key : ℕ) → TxRequest → Result String ℕ
  pub hash : Envelope → ℕ
  pub send_raw_transaction : String → Envelope → SendAttempt
  -- The queries for a receipt that the ticks, or the interval where there is no ticker, and the timeout let through.
  pub looks : Option BlockTicker → String → ℕ → List Look
  pub trigger_to_dispatch_ms : Envelope → ℕ
  pub prepare_age_ms : Envelope → ℕ
  pub ack_ms : String → Envelope → ℕ
  pub inclusion_ms : String → Envelope → ℕ
  pub rpc_label : ℕ → String
  pub subscribe_blocks : String → Subscribing
  -- The HEAD request of the clock check, answered within 5 seconds, and the rounded arithmetic on `f64` of a local
  -- time, a duration and a server's time.
  pub head : String → Option DateReply
  pub drift_ms : (sent_at rtt : ℕ) → (server_unix : ℤ) → ℤ
  pub get_public_drop : String → ℕ → ℕ → Result ReadError (Option PublicDropWords)
  pub fee_recipient_allowed : String → ℕ → ℕ → ℕ → Result String Bool
  -- ABI encoding and decoding for `mintPublic(address,address,address,uint256)`.
  pub mint_public_selector : List ℕ
  pub abi_encode_input : List DynSolValue → Option (List ℕ)
  pub abi_decode_input : List ℕ → Option (List DynSolValue)
  pub get_mint_stats : String → ℕ → ℕ → Result String MintStatsWords
  -- `get_code_at` at a block, as whether there is code, and a block's timestamp; `none` is no answer.
  pub has_code_at : String → ℕ → ℕ → Option Bool
  pub block_timestamp : String → ℕ → Option ℕ
  -- The parsed answer of GoPlus.
  pub goplus_answer : ℕ → ℕ → Option ApiResponse
  -- `eth_call` of a transaction, and the operator's transaction count.
  pub call : String → ProbeTx → Result String (Unit {0})
  pub get_transaction_count : String → ℕ → Result ReadError ℕ
  -- `std::env::var`; the parent key of a mnemonic, and its child of an index.
  pub env_var : String → Option String
  pub parent_key : String → Option ℕ
  pub child_key : (parent index : ℕ) → Option ManagedWallet

-- `TransactionRequest::build`: the key that is asked for the signature is the envelope's.
abbrev pub build_signed : Net → (key : ℕ) → TxRequest → Result String Envelope
build_signed net key tx = elim (net.sign key tx) [
  | ok signature ↦ ok (record { key = key; request = tx; signature = signature })
  | err e ↦ err e
]
