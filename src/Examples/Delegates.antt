-- ===== src/Examples/Delegates.antt =====
-- The theorems on a delegated run, with two receivers, and on the watchers, in the example world.
use seasniper.Common.{ℕ, String, some, List, [], ◌∷◌, ◌≡◌, refl}
use seasniper.Common.Results.{Result, ok, err}
use seasniper.Failure.{ReadError, timed_out}
use seasniper.Wallet.{ProbeTx}
use seasniper.Copymint.Watch.{PendingTx}
use seasniper.Delegated.Run.{receivers_from, compare_calls, pre_ok, estimate_spend}
use seasniper.Examples.World.{net, cfg, node, wallet}
use seasniper.Delegated.{Plan, Tally, Turn, fire_all}
use seasniper.Delegated.Firing.{InOrder, fire_all-InOrder}

abbrev plan : Plan
plan = record {
  url = node;
  seadrop = 7;
  nft_contract = 40;
  fee_recipient = 41;
  operator = wallet;
  value_per_call = 50;
  chain_id = 1;
}

abbrev start : Tally
start = record { nonce = 5; minted = 0; attempted = 0; total_cost_wei = 0 }

abbrev turns : List Turn
turns = (record { net = net; receiver = 21 }) ∷ (record { net = net; receiver = 22 }) ∷ []

fire_all-InOrder_example : InOrder 5 (fire_all cfg plan 1 start turns).1.0
fire_all-InOrder_example = fire_all-InOrder cfg plan 1 start turns

abbrev simulated : ProbeTx
simulated = record { from = some 11; to = 7; input = 22 ∷ []; value = 50 }

abbrev fine : Result String (Unit {0})
fine = ok tt

calls-pass : compare_calls net node simulated 50 2 fine fine ≡ ok (pre_ok 4200100)
unfolding compare_calls estimate_spend
calls-pass = refl

abbrev receivers : List ℕ
receivers = 21 ∷ 22 ∷ []

two-derived : receivers_from net 77 1 2 ≡ ok receivers
unfolding receivers_from
two-derived = refl

abbrev answers : List (Result ReadError (List ℕ))
answers = ok (0 ∷ []) ∷ err timed_out ∷ ok (0 ∷ 1 ∷ []) ∷ []

abbrev pending : List PendingTx
pending = (record { signer = 3; to = some 40; input = [] }) ∷ []
