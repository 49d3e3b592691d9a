-- ===== src/Delegated/Firing.antt =====
-- The nonces and the totals of a delegated run (mint-sniper/src/delegated/executor.rs).
use seasniper.Common.{
  ℕ, suc, ◌+◌, Bool, true, false, List, [], ◌∷◌, ◌≡◌, refl, arith, length, count_if, wrap_u64,
  Option, none, some, if◌then◌else◌,
}
use seasniper.Common.Results.{Result, ok, err}
use seasniper.Failure.{Failure}
use seasniper.Bus.{ServerEvent}
use seasniper.Config.{Config}
use seasniper.Wallet.{Envelope, TransactionReceipt}
use seasniper.Net.{Net, SendAttempt}
use seasniper.Delegated.{
  Plan, Tally, Turn, TurnEnd, receipt, no_receipt, not_taken, not_sent, take_turn, build, built_end,
  sent_end, after_turn, ends_run, fire_all, first_receipt,
}

-- Each transaction that was handed to the node uses the nonce that follows the receipts before it, and nothing
-- follows one that was taken and whose receipt did not come.
abbrev pub InOrder : ℕ → List TurnEnd → Type 0
InOrder n [] = Unit
InOrder n (not_sent e ∷ ends) = InOrder n ends
InOrder n (not_taken tx e ∷ ends) = (tx.request.nonce ≡ n) × InOrder n ends
InOrder n (no_receipt tx ∷ ends) = (tx.request.nonce ≡ n) × (ends ≡ [])
InOrder n (receipt tx fee r ∷ ends) = (tx.request.nonce ≡ n) × InOrder (wrap_u64 (n + 1)) ends

abbrev HasNonce : ℕ → TurnEnd → Type 0
HasNonce n (not_sent e) = Unit
HasNonce n (not_taken tx e) = tx.request.nonce ≡ n
HasNonce n (no_receipt tx) = tx.request.nonce ≡ n
HasNonce n (receipt tx fee r) = tx.request.nonce ≡ n

build-nonce :
    (net : Net) (cfg : Config) (plan : Plan) (n receiver fee : ℕ) (tx : Envelope)
    → build net cfg plan n receiver ≡ ok (tx, fee)
    → tx.request.nonce ≡ n
unfolding build
build-nonce net cfg plan n receiver fee tx e = ground (arith, e)

sent_end-HasNonce :
    (net : Net) (plan : Plan) (n fee : ℕ) (tx : Envelope) (answer : SendAttempt)
    → tx.request.nonce ≡ n
    → HasNonce n (sent_end net plan tx fee answer)
sent_end-HasNonce net plan n fee tx SendAttempt.acked h =
    by_receipt (first_receipt (net.looks none plan.url (net.hash tx)))
  where
    by_receipt :
        (found : Option TransactionReceipt)
        → HasNonce n (elim found [ some r ↦ receipt tx fee r | none ↦ no_receipt tx ])
    by_receipt none = h
    by_receipt (some r) = h
sent_end-HasNonce net plan n fee tx (SendAttempt.rpc_error e) h = h
sent_end-HasNonce net plan n fee tx SendAttempt.timed_out h = h

built_end-HasNonce :
    (net : Net) (plan : Plan) (n : ℕ) (built : Result Failure (Envelope × ℕ))
    → ((tx : Envelope) (fee : ℕ) → built ≡ ok (tx, fee) → tx.request.nonce ≡ n)
    → HasNonce n (built_end net plan built)
built_end-HasNonce net plan n (err e) right = tt
built_end-HasNonce net plan n (ok (tx, fee)) right =
    sent_end-HasNonce net plan n fee tx (net.send_raw_transaction plan.url tx) (right tx fee refl)

take_turn-HasNonce :
    (cfg : Config) (plan : Plan) (n : ℕ) (turn : Turn) → HasNonce n (take_turn cfg plan n turn)
unfolding take_turn
take_turn-HasNonce cfg plan n turn =
    built_end-HasNonce turn.net plan n (build turn.net cfg plan n turn.receiver)
      (λ tx fee e. build-nonce turn.net cfg plan n turn.receiver fee tx e)

-- The ends of a run whose first turn ended so.
abbrev chain : TurnEnd → List TurnEnd → List TurnEnd
chain end ends = if ends_run end then end ∷ [] else end ∷ ends

chain-InOrder :
    (plan : Plan) (t : Tally) (end : TurnEnd) (ends : List TurnEnd)
    → HasNonce t.nonce end
    → InOrder (after_turn plan t end).nonce ends
    → InOrder t.nonce (chain end ends)
chain-InOrder plan t (not_sent e) ends h rest = rest
chain-InOrder plan t (not_taken tx e) ends h rest = (h, rest)
chain-InOrder plan t (no_receipt tx) ends h rest = (h, refl)
chain-InOrder plan t (receipt tx fee r) ends h rest = (h, rest)

abbrev ends_of : List ServerEvent × (List TurnEnd × Tally) → List TurnEnd
ends_of run = run.1.0

fire_all-chain :
    (cfg : Config) (plan : Plan) (i : ℕ) (t : Tally) (turn : Turn) (turns : List Turn)
    → ends_of (fire_all cfg plan i t (turn ∷ turns))
      ≡ chain (take_turn cfg plan t.nonce turn) (
          ends_of
            (fire_all cfg plan (suc i) (after_turn plan t (take_turn cfg plan t.nonce turn)) turns))
unfolding fire_all
fire_all-chain cfg plan i t turn turns = ground arith

-- Every transaction that a run hands to the node, the node's answer being an error or not, is at the run's first
-- nonce moved on, with the wrap of a `u64`, by the receipts before it; and after one that the node took and whose
-- receipt did not come in time, the run ends.
pub fire_all-InOrder :
    (cfg : Config) (plan : Plan) (i : ℕ) (t : Tally) (turns : List Turn)
    → InOrder t.nonce (fire_all cfg plan i t turns).1.0
fire_all-InOrder cfg plan i t [] = unfold fire_all in tt
fire_all-InOrder cfg plan i t (turn ∷ turns) =
    let end : TurnEnd = take_turn cfg plan t.nonce turn in
    rw (fire_all-chain cfg plan i t turn turns) (
      chain-InOrder plan t end (ends_of (fire_all cfg plan (suc i) (after_turn plan t end) turns))
        (take_turn-HasNonce cfg plan t.nonce turn)
        (fire_all-InOrder cfg plan (suc i) (after_turn plan t end) turns))

abbrev pub is_receipt : TurnEnd → Bool
is_receipt (receipt tx fee r) = true
is_receipt _ = false

abbrev pub is_minted : TurnEnd → Bool
is_minted (receipt tx fee r) = r.status
is_minted _ = false

-- The nonce after the receipts of some turns: one more for each, past the largest `u64` to 0.
abbrev pub after_receipts : ℕ → List TurnEnd → ℕ
after_receipts n [] = n
after_receipts n (end ∷ ends) = after_receipts (if is_receipt end then wrap_u64 (n + 1) else n) ends

-- What the last tally says of the turns, from the first tally on.
pub record Counted (t last : Tally) (ends : List TurnEnd) : Type 0 where
  pub attempts : last.attempted ≡ t.attempted + length ends
  pub mints : last.minted ≡ t.minted + count_if is_minted ends
  pub nonces : last.nonce ≡ after_receipts t.nonce ends

chain_last : Plan → Tally → TurnEnd → Tally → Tally
chain_last plan t end last = if ends_run end then after_turn plan t end else last

chain-Counted :
    (plan : Plan) (t last : Tally) (end : TurnEnd) (ends : List TurnEnd)
    → Counted (after_turn plan t end) last ends
    → Counted t (chain_last plan t end last) (chain end ends)
unfolding chain_last
chain-Counted plan t last (not_sent e) ends c = record {
  attempts = ground (arith, c.attempts);
  mints = ground (arith, c.mints);
  nonces = ground (arith, c.nonces);
}
chain-Counted plan t last (not_taken tx e) ends c = record {
  attempts = ground (arith, c.attempts);
  mints = ground (arith, c.mints);
  nonces = c.nonces;
}
chain-Counted plan t last (no_receipt tx) ends c = record {
  attempts = ground arith;
  mints = ground arith;
  nonces = ground arith;
}
chain-Counted plan t last (receipt tx fee r) ends c = record {
  attempts = ground (arith, c.attempts);
  mints = ground (arith, c.mints);
  nonces = ground (arith, c.nonces);
}

fire_all-last :
    (cfg : Config) (plan : Plan) (i : ℕ) (t : Tally) (turn : Turn) (turns : List Turn)
    → (fire_all cfg plan i t (turn ∷ turns)).1.1
      ≡ chain_last plan t
          (take_turn cfg plan t.nonce turn)
          (fire_all cfg plan
            (suc i)
            (after_turn plan t (take_turn cfg plan t.nonce turn))
            turns).1.1
unfolding fire_all chain_last
fire_all-last cfg plan i t turn turns = ground arith

-- The totals of a run are those of its turns: the attempts, the mints that succeeded, and the nonces that
-- receipts used up.
pub fire_all-Counted :
    (cfg : Config) (plan : Plan) (i : ℕ) (t : Tally) (turns : List Turn)
    → Counted t (fire_all cfg plan i t turns).1.1 (fire_all cfg plan i t turns).1.0
fire_all-Counted cfg plan i t [] =
    unfold fire_all in
    record { attempts = ground arith; mints = ground arith; nonces = ground arith }
fire_all-Counted cfg plan i t (turn ∷ turns) =
    let end : TurnEnd = take_turn cfg plan t.nonce turn in
    rw (fire_all-chain cfg plan i t turn turns, fire_all-last cfg plan i t turn turns)
      (chain-Counted plan t (fire_all cfg plan (suc i) (after_turn plan t end) turns).1.1 end
        (ends_of (fire_all cfg plan (suc i) (after_turn plan t end) turns))
        (fire_all-Counted cfg plan (suc i) (after_turn plan t end) turns))
