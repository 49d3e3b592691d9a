-- ===== src/Copymint/Watch.antt =====
-- The copymint watcher's loop over pending transactions (`decode_mint_public_call` and `watch_once` of
-- mint-sniper/src/copymint.rs).
use seasniper.Common.{
  ℕ, suc, zero, String, Bool, true, false, Option, none, some, List, [], ◌∷◌, ◌++◌, ◌&&◌, ◌==◌, any,
  first, get_elem?, if◌then◌else◌,
}
use seasniper.Common.Results.{Result, ok, err, or_fail, ◌>>=◌}
use seasniper.Failure.{Failure, short_calldata, bad_calldata, bad_nft_contract, bad_fee_recipient}
use seasniper.Config.{Config}
use seasniper.Net.{Net, DynSolValue, address, uint, other}
use seasniper.Effect.{Effect}
use seasniper.Copymint.{handle_candidate}

-- A full pending transaction of the subscription.
pub record PendingTx : Type 0 where
  pub signer : ℕ
  pub to : Option ℕ
  pub input : List ℕ

-- `slice.get(n..)`.
abbrev pub get_from : ℕ → List ℕ → Option (List ℕ)
get_from zero xs = some xs
get_from (suc n) [] = none
get_from (suc n) (x ∷ xs) = get_from n xs

abbrev pub as_address : DynSolValue → Option ℕ
as_address (address a) = some a
as_address (uint v bits) = none
as_address other = none

abbrev and_then : Option DynSolValue → Option ℕ
and_then none = none
and_then (some v) = as_address v

unfoldable pub decode_mint_public_call : Net → List ℕ → Result Failure (ℕ × ℕ)
decode_mint_public_call net calldata = do
  args ← or_fail (get_from 4 calldata) short_calldata
  decoded ← or_fail (net.abi_decode_input args) bad_calldata
  nft_contract ← or_fail (and_then (first decoded)) bad_nft_contract
  fee_recipient ← or_fail (and_then (get_elem? decoded 1)) bad_fee_recipient
  ok (nft_contract, fee_recipient)

-- `input[..4] == selector[..]`, where the input is long enough.
abbrev pub has_prefix : List ℕ → List ℕ → Bool
has_prefix [] ys = true
has_prefix (x ∷ xs) [] = false
has_prefix (x ∷ xs) (y ∷ ys) = (x == y) && has_prefix xs ys

abbrev pub is_to : ℕ → Option ℕ → Bool
is_to a none = false
is_to a (some b) = b == a

-- The three filters.
unfoldable pub matches : Net → (tracked : List ℕ) (seadrop : ℕ) → PendingTx → Bool
matches net tracked seadrop tx =
    any (λ a. a == tx.signer) tracked
    && (is_to seadrop tx.to && has_prefix net.mint_public_selector tx.input)

-- A call that does not decode is only logged outside the bus.
unfoldable pub on_decoded :
    Net → Config → Option String → ℕ → Result Failure (ℕ × ℕ) → Option (List Effect)
on_decoded net cfg best sender (ok (nft_contract, fee_recipient)) =
    handle_candidate net cfg best sender nft_contract fee_recipient
on_decoded net cfg best sender (err e) = some []

unfoldable pub watch_tx :
    Net → Config → Option String → List ℕ → ℕ → PendingTx → Option (List Effect)
watch_tx net cfg best tracked seadrop tx =
    if matches net tracked seadrop tx
    then on_decoded net cfg best tx.signer (decode_mint_public_call net tx.input)
    else some []

-- The stream, with the world and the configuration at each transaction.
pub record Pending : Type 0 where
  pub net : Net
  pub cfg : Config
  pub best : Option String
  pub tx : PendingTx

unfoldable pub watch_once : (tracked : List ℕ) (seadrop : ℕ) → List Pending → Option (List Effect)
watch_once tracked seadrop [] = some []
watch_once tracked seadrop (p ∷ ps) = elim (watch_tx p.net p.cfg p.best tracked seadrop p.tx) [
  | none ↦ none
  | some effects ↦ elim (watch_once tracked seadrop ps) [
    | none ↦ none
    | some more ↦ some (effects ++ more)
  ]
]
