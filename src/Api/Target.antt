-- ===== src/Api/Target.antt =====
-- What choosing a target does (`post_target_set` of mint-sniper/src/api.rs).
use seasniper.Common.{ℕ, String, true, none, some, List, [], ◌∷◌, ◌≡◌, ◌⊎◌, select}
use seasniper.Common.Results.{ok}
use seasniper.Failure.{Failure}
use seasniper.Config.{Config}
use seasniper.Config.Validate.{validate}
use seasniper.Effect.{send, set_target}
use seasniper.Target.{
  ResolvedTarget, resolve_address, target_is_live, total_value_wei, mint_calldata,
}
use seasniper.Api.{App, Outside, Outcome, best_rpc}
use seasniper.Api.Orders.{aimed}
use seasniper.Api.Quiet.{is_order}

-- The one way in which a chosen target gets through: the configuration that the request saw at its start, aimed at
-- the contract.
pub record Chosen (w : Outside) (seen : Config) (nft_contract : String) (app : App) (o : Outcome)
    : Type 0 where
  pub nft : ℕ
  pub target : ResolvedTarget
  pub calldata : List ℕ
  pub seadrop_mode : seen.mint_mode ≡ "seadrop"
  pub parsed : w.net.parse_address nft_contract ≡ some nft
  pub resolved : resolve_address w.net seen nft (best_rpc app) ≡ some (ok target)
  pub live : target_is_live target w.net.now ≡ true
  pub recipient_ok : target.fee_recipient_ok ≡ true
  pub encoded : mint_calldata w.net target ≡ ok calldata
  pub valid : validate w.net (aimed seen (w.hex nft)) ≡ ok tt
  pub memory : o.0.config ≡ aimed seen (w.hex nft)
  pub disk :
      (o.0.on_disk ≡ app.on_disk)
      ⊎ ((o.0.on_disk ≡ none) ⊎ (o.0.on_disk ≡ some (aimed seen (w.hex nft))))
  pub ordered : select is_order o.1 ≡ send (set_target nft calldata (total_value_wei target)) ∷ []

-- Nothing was sent, and the state is as it was.
abbrev pub Untouched : App → Outcome → Type 0
Untouched app o = (o.0 ≡ app) × (o.1 ≡ [])

module _ (w : Outside) (seen : Config) (text : String) (app : App) where
  abbrev Settled : Outcome → Type 0
  Settled o = Untouched app o ⊎ Chosen w seen text app o
