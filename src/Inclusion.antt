-- ===== src/Inclusion.antt =====
-- Waiting for a receipt, and the signal of new blocks (mint-sniper/src/inclusion.rs). The chain's answers to
-- successive queries stand in a list that ends where the overall timeout elapses.
pub mod FirstReceipt
use seasniper.Common.{
  ℕ, ◌+◌, String, Bool, Option, none, some, List, [], ◌∷◌, is_some, wrap_u64, if◌then◌else◌,
}
use seasniper.Common.Results.{Result, ok, err}
use seasniper.Failure.{ReadError}
use seasniper.Wallet.{TransactionReceipt}

-- The shared signal of new blocks: the socket that it is fed from.
pub record BlockTicker : Type 0 where
  pub ws_url : String

-- How connecting and subscribing to new heads end: at one of the two, or with neither done in 5 seconds.
pub data Subscribing : Type 0 where
  subscribed not_connected not_subscribed connect_timed_out : Subscribing

-- Any failure leaves the wait to the polls; why it failed goes to the process's own log only.
unfoldable pub establish_block_ticker :
    (String → Subscribing) → (ws_url : String) → Option BlockTicker
establish_block_ticker subscribe ws_url = elim (subscribe ws_url) [
  | subscribed ↦ some (record { ws_url = ws_url })
  | not_connected ↦ none
  | not_subscribed ↦ none
  | connect_timed_out ↦ none
]

-- The task that feeds the ticker: the ticks that it sends, from the last one, for the heads of the stream, each with
-- whether a receiver is left. It ends with the stream or with the last receiver, and then the ticker is closed.
forward : ℕ → List Bool → List ℕ
forward tick [] = []
forward tick (listened ∷ heads) =
    let next = wrap_u64 (tick + 1) in
    let rest = forward next heads in if listened then next ∷ rest else []

unfoldable pub ticks : List Bool → List ℕ
unfolding forward
ticks heads = forward 0 heads

pub data Method : Type 0 where
  push poll : Method

-- Why the wait after a query ends: a new block, or the ticker's sender is gone. A poll does not read it.
pub data Wake : Type 0 where
  changed closed : Wake

pub record Look : Type 0 where
  pub answer : Result ReadError (Option TransactionReceipt)
  pub wake : Wake

pub data InclusionOutcome : Type 0 where
  included : TransactionReceipt → Method → InclusionOutcome
  timed_out : Method → InclusionOutcome

-- `if let Ok(Some(receipt)) = …`.
abbrev pub seen : Result ReadError (Option TransactionReceipt) → Option TransactionReceipt
seen (ok r) = r
seen (err e) = none

wait_poll : List Look → Option TransactionReceipt
wait_poll [] = none
wait_poll (l ∷ ls) = elim (seen l.answer) [ some r ↦ some r | none ↦ wait_poll ls ]

wait_push : List Look → Option TransactionReceipt
wait_push [] = none
wait_push (l ∷ ls) = elim (seen l.answer) [
  | some r ↦ some r
  | none ↦ elim l.wake [ Wake.changed ↦ wait_push ls | Wake.closed ↦ wait_poll ls ]
]

unfoldable pub outcome : Method → Option TransactionReceipt → InclusionOutcome
outcome m (some r) = included r m
outcome m none = timed_out m

-- The list holds the queries that the ticks, or the interval, and the timeout let through: it ends where the wait does,
-- so that a ticker that stays silent lets one query through.
unfoldable pub wait_for_receipt : Option BlockTicker → List Look → InclusionOutcome
unfolding wait_poll wait_push outcome
wait_for_receipt (some ticker) looks = outcome push (wait_push looks)
wait_for_receipt none looks = outcome poll (wait_poll looks)
