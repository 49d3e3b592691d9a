-- ===== src/Inclusion/FirstReceipt.antt =====
-- What `wait_for_receipt` answers, on either path.
use seasniper.Common.{◌≡◌, refl, Option, none, some, List, [], ◌∷◌, arith, find_map}
use seasniper.Wallet.{TransactionReceipt}
use seasniper.Inclusion.{
  BlockTicker, Method, push, poll, Look, seen, wait_poll, wait_push, outcome, wait_for_receipt,
}

abbrev pub first_receipt : List Look → Option TransactionReceipt
first_receipt = find_map (λ (l : Look). seen l.answer)

wait_poll-first : (ls : List Look) → wait_poll ls ≡ first_receipt ls
unfolding wait_poll
wait_poll-first [] = refl
wait_poll-first (l ∷ ls) = ground (arith, wait_poll-first ls)

wait_push-first : (ls : List Look) → wait_push ls ≡ first_receipt ls
unfolding wait_push
wait_push-first [] = refl
wait_push-first (l ∷ ls) = ground (arith, wait_push-first ls, wait_poll-first ls)

abbrev pub method_of : Option BlockTicker → Method
method_of none = poll
method_of (some t) = push

-- A receipt is reported exactly when some query before the timeout returned one, and it is the first
-- such receipt; the ticker, also one that dies on the way, changes only the method that is named.
pub wait_for_receipt-first :
    (ticker : Option BlockTicker) (looks : List Look)
    → wait_for_receipt ticker looks ≡ outcome (method_of ticker) (first_receipt looks)
unfolding wait_for_receipt
wait_for_receipt-first none looks = ground (arith, wait_poll-first looks)
wait_for_receipt-first (some t) looks = ground (arith, wait_push-first looks)
