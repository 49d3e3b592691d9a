-- ===== src/Control/Step.antt =====
-- One message of the control channel (`control_loop` of mint-sniper/src/main.rs), and a sequence of them.
-- `none` is a task that has panicked: no later message is handled.
use seasniper.Common.{ℕ, Bool, Option, none, some, List, [], ◌∷◌, ◌++◌, if◌then◌else◌}
use seasniper.Executor.Prepare.{MintCall}
use seasniper.Failure.{unless_panic}
use seasniper.Bus.{info, warn, armed_state, target_set, firing_delegated}
use seasniper.Config.{Config}
use seasniper.Net.{Net}
use seasniper.Effect.{
  Effect, ControlMsg, arm, disarm, fire_now, prepare, fire_copymint, set_target, fire_delegated,
  delegated_run, emit, spawn, log_now,
}
use seasniper.Control.State.{Loop, abort_tasks, end_session}
use seasniper.Control.Arm.{handle_arm}
use seasniper.Control.Ready.{handle_prepare, handle_disarm}
use seasniper.Control.Fire.{fire_current, copymint_result, handle_fire_now, handle_fire_copymint}

-- The next fire uses the new target; what was signed for the old one is dropped.
unfoldable pub handle_set_target : Net → Loop → ℕ → List ℕ → ℕ → Loop × List Effect
handle_set_target net s nft_contract calldata value = (
  record (end_session s) {
    admin_watch_target = nft_contract;
    mint_calldata = calldata;
    mint_value = value;
  },
  abort_tasks s
      ++ (if s.armed then emit (armed_state Bool.false) ∷ [] else [])
      ++ log_now net info (target_set nft_contract s.armed) ∷ [],
)

-- The run is a task of its own and shares nothing with the loop.
unfoldable pub handle_fire_delegated : Net → Config → Loop → Loop × List Effect
handle_fire_delegated net cfg s =
    (s, log_now net warn firing_delegated ∷ spawn (delegated_run cfg) ∷ [])

unfoldable pub step : Net → Config → Loop → ControlMsg → Option (Loop × List Effect)
unfolding handle_set_target handle_fire_delegated
step net cfg s arm = some (handle_arm net cfg s)
step net cfg s disarm = some (handle_disarm net s)
step net cfg s fire_now = unless_panic (fire_current net cfg s).result (handle_fire_now net cfg s)
step net cfg s prepare = handle_prepare net cfg s
step net cfg s (fire_copymint contract calldata value) =
    let call : MintCall = record { contract = contract; calldata = calldata; value = value } in
    unless_panic (copymint_result net cfg s call) (handle_fire_copymint net cfg s call)
step net cfg s (set_target nft_contract calldata value) =
    some (handle_set_target net s nft_contract calldata value)
step net cfg s fire_delegated = some (handle_fire_delegated net cfg s)

-- A message as it is handled: the world and the configuration of that moment.
pub record Moment : Type 0 where
  pub net : Net
  pub cfg : Config
  pub msg : ControlMsg

unfoldable pub run : Loop → List Moment → Option (Loop × List Effect)
run s [] = some (s, [])
run s (m ∷ ms) = elim (step m.net m.cfg s m.msg) [
  | none ↦ none
  | some (t, effects) ↦ elim (run t ms) [ none ↦ none | some (u, more) ↦ some (u, effects ++ more) ]
]
