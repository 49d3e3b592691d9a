-- ===== src/Examples/Loops.antt =====
-- The theorems on the control loop at the example states.
use seasniper.Common.{◌⊎◌, true, some, [], ◌∷◌, ◌≡◌, refl, arith, List, ◌++◌, Pointwise}
use seasniper.Effect.{Effect, fire_now, disarm, prepare}
use seasniper.Config.{Config}
use seasniper.Control.Panics.{Unreadable, EmptyRange, signs, step-none}
use seasniper.Executor.Prepare.{prepare_fire, quote, prepare_wallets, prepare_wallet, tx_for}
use seasniper.Control.State.{Loop}
use seasniper.Control.Arm.{drift_gate}
use seasniper.Executor.Report.{fire_prepared}
use seasniper.Executor.Fees.{gas_jitter_pct}
use seasniper.Control.Fire.{
  connections, fire_current, fire_cached, commit, handle_fire_now, handle_fire_copymint,
}
use seasniper.Control.Step.{Moment, step, run}
use seasniper.Control.Ready.{handle_disarm, handle_prepare, fresh_value, fetch_first}
use seasniper.Control.Lifecycle.{Inv, run-Inv}
use seasniper.Control.Flags.{armed_after, step-armed}
use seasniper.Control.Nonces.{Moved, step-Moved}
use seasniper.Control.Cache.{
  FreshBatch, Keeps, step-FreshBatch, Behind, copymint_signs, handle_fire_copymint-Behind,
}
use seasniper.Control.Sends.{SendsNext, handle_fire_now-SendsNext}
use seasniper.Executor.Prepare.Batch.{BatchFor}
use seasniper.Examples.World.{net, cfg, wallet, batch, call, armed_loop}

abbrev disarmed : Loop
disarmed = (handle_disarm net armed_loop).0

armed_loop-Inv : Inv armed_loop
armed_loop-Inv = ground arith

abbrev fired : Loop
fired = (handle_fire_now net cfg armed_loop).0

abbrev moments : List Moment
moments =
    (record { net = net; cfg = cfg; msg = fire_now })
    ∷ (record { net = net; cfg = cfg; msg = disarm })
    ∷ []

abbrev both : List Effect
both = (handle_fire_now net cfg armed_loop).1 ++ ((handle_disarm net fired).1 ++ [])

run-Inv_example : Inv (handle_disarm net fired).0
unfolding fire_current fire_cached commit fire_prepared
run-Inv_example =
    run-Inv armed_loop (handle_disarm net fired).0 moments both armed_loop-Inv
      (unfold run step in refl)

step-armed_example : disarmed.armed ≡ armed_after (drift_gate net cfg).1 disarm true
step-armed_example =
    step-armed net cfg armed_loop disarmed disarm (handle_disarm net armed_loop).1 armed_loop-Inv
      (unfold step in refl)

abbrev unlisted : Config
unlisted = record cfg { http_rpc_urls = [] }

step-none_example :
    ((prepare ≡ prepare) × Unreadable net unlisted armed_loop)
    ⊎ ((signs prepare ≡ true) × EmptyRange unlisted armed_loop.wallets)
step-none_example =
    step-none net unlisted armed_loop prepare
      (unfold step handle_prepare fresh_value fetch_first in refl)

batch-BatchFor : BatchFor 30 (22 ∷ []) (wallet ∷ []) batch.wallets
batch-BatchFor = (
  record { address_of = refl; key_of = refl; nonce_of = refl; to_of = refl; input_of = refl },
  tt,
)

step-Moved_example : Pointwise Moved (wallet ∷ []) fired.wallets
unfolding fire_current fire_cached commit fire_prepared
step-Moved_example =
    step-Moved net cfg armed_loop fired fire_now (handle_fire_now net cfg armed_loop).1
      (unfold step in refl)

step-FreshBatch_example : FreshBatch fired
unfolding fire_current fire_cached commit fire_prepared
step-FreshBatch_example =
    step-FreshBatch net cfg armed_loop fired fire_now (handle_fire_now net cfg armed_loop).1
      (unfold Keeps in tt) batch-BatchFor (unfold step in refl)

handle_fire_now-SendsNext_example :
    SendsNext 30 (22 ∷ []) (wallet ∷ []) (handle_fire_now net cfg armed_loop).1
handle_fire_now-SendsNext_example = handle_fire_now-SendsNext net cfg armed_loop batch-BatchFor

call-signs : copymint_signs net cfg armed_loop call ≡ true
unfolding connections prepare_fire quote prepare_wallets prepare_wallet tx_for gas_jitter_pct
call-signs = refl

abbrev copied : Loop
copied = (handle_fire_copymint net cfg armed_loop call).0

handle_fire_copymint-Behind_example :
    (copied.prepared_fire ≡ some batch) × Pointwise Behind copied.wallets batch.wallets
handle_fire_copymint-Behind_example =
    handle_fire_copymint-Behind net cfg armed_loop call batch refl batch-BatchFor call-signs
