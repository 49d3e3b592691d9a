-- ===== src/Control/Lifecycle.antt =====
-- The arm session: what holds of the loop's handles and caches between two messages.
use seasniper.Common.{
  ℕ, true, false, Option, none, some, List, [], ◌∷◌, ◌≡◌, inl, inr, arith, is_some, is_nil,
  Bool-cases, Option-cases,
}
use seasniper.Config.{Config}
use seasniper.Net.{Net}
use seasniper.Effect.{
  Effect, ControlMsg, arm, disarm, fire_now, prepare, fire_copymint, set_target, fire_delegated,
}
use seasniper.Executor.Prepare.{PreparedFire, MintCall}
use seasniper.Control.State.{Loop, end_session}
use seasniper.Control.Arm.{handle_arm, arm_session, armed_state_of}
use seasniper.Control.Ready.{
  handle_prepare, handle_disarm, sign_at, sign_all, store_prepared, fresh_value,
}
use seasniper.Control.Fire.{handle_fire_now, handle_fire_copymint}
use seasniper.Control.Step.{step, run, Moment, handle_set_target}

-- A cached batch can be sent somewhere.
abbrev pub CanSend : Option PreparedFire → Type 0
CanSend none = Unit
CanSend (some pf) = is_nil pf.providers ≡ false

-- An unarmed loop holds nothing of a session, an armed one has a watcher, and a cached batch has a
-- provider to go to.
pub record Inv (s : Loop) : Type 0 where
  pub unarmed_watcher : s.armed ≡ false → s.watcher_handle ≡ none
  pub unarmed_timer : s.armed ≡ false → s.prepare_timer_handle ≡ none
  pub unarmed_loop : s.armed ≡ false → s.reprepare_handle ≡ none
  pub unarmed_providers : s.armed ≡ false → s.warmed_providers ≡ []
  pub unarmed_sequencer : s.armed ≡ false → s.warmed_sequencer ≡ none
  pub unarmed_ticker : s.armed ≡ false → s.block_ticker ≡ none
  pub unarmed_batch : s.armed ≡ false → s.prepared_fire ≡ none
  pub armed_watcher : s.armed ≡ true → is_some s.watcher_handle ≡ true
  pub batch_sendable : CanSend s.prepared_fire

end_session-Inv : (s : Loop) → Inv (end_session s)
unfolding end_session
end_session-Inv s = ground arith

handle_arm-Inv : (net : Net) (cfg : Config) (s : Loop) → Inv s → Inv (handle_arm net cfg s).0
unfolding handle_arm arm_session armed_state_of
handle_arm-Inv net cfg s v = ground arith

-- Signing for an armed loop with connections keeps the invariant.
sign_at-Inv :
    (net : Net) (cfg : Config) (s : Loop) (fresh : ℕ × List Effect)
    → is_nil s.warmed_providers ≡ false
    → Inv s
    → Inv (sign_at net cfg s fresh).0
unfolding sign_at sign_all store_prepared
sign_at-Inv net cfg s fresh h v = ground arith

handle_prepare-Inv :
    (net : Net) (cfg : Config) (s t : Loop) (effects : List Effect)
    → Inv s
    → handle_prepare net cfg s ≡ some (t, effects)
    → Inv t
unfolding handle_prepare
handle_prepare-Inv net cfg s t effects v e = elim (Bool-cases (is_nil s.warmed_providers)) [
  | inl empty ↦ ground arith
  | inr warmed ↦ elim (Option-cases (fresh_value net cfg s)) [
    | inl gone ↦ ground arith
    | inr (fresh, got) ↦ ground (arith, sign_at-Inv net cfg s fresh warmed v)
  ]
]

handle_fire_now-Inv : (net : Net) (cfg : Config) (s : Loop) → Inv (handle_fire_now net cfg s).0
unfolding handle_fire_now end_session
handle_fire_now-Inv net cfg s = ground arith

handle_fire_copymint-Inv :
    (net : Net) (cfg : Config) (s : Loop) (call : MintCall)
    → Inv s
    → Inv (handle_fire_copymint net cfg s call).0
unfolding handle_fire_copymint
handle_fire_copymint-Inv net cfg s call v = ground arith

handle_disarm-Inv : (net : Net) (s : Loop) → Inv (handle_disarm net s).0
unfolding handle_disarm
handle_disarm-Inv net s = end_session-Inv s

handle_set_target-Inv :
    (net : Net) (s : Loop) (nft : ℕ) (calldata : List ℕ) (value : ℕ)
    → Inv (handle_set_target net s nft calldata value).0
unfolding handle_set_target end_session
handle_set_target-Inv net s nft calldata value = ground arith

-- Every message that is handled keeps the invariant.
pub step-Inv :
    (net : Net) (cfg : Config) (s t : Loop) (msg : ControlMsg) (effects : List Effect)
    → Inv s
    → step net cfg s msg ≡ some (t, effects)
    → Inv t
unfolding step
step-Inv net cfg s t arm effects v e = ground (arith, handle_arm-Inv net cfg s v)
step-Inv net cfg s t disarm effects v e = ground (arith, handle_disarm-Inv net s)
step-Inv net cfg s t fire_now effects v e = ground (arith, handle_fire_now-Inv net cfg s)
step-Inv net cfg s t prepare effects v e = handle_prepare-Inv net cfg s t effects v e
step-Inv net cfg s t (fire_copymint c d x) effects v e =
    ground (
      arith,
      handle_fire_copymint-Inv net cfg s (record { contract = c; calldata = d; value = x }) v,
    )
step-Inv net cfg s t (set_target n d x) effects v e =
    ground (arith, handle_set_target-Inv net s n d x)
step-Inv net cfg s t fire_delegated effects v e = ground arith

-- However the messages, the world and the configuration come, the invariant holds of the state after
-- them.
pub run-Inv :
    (s t : Loop) (moments : List Moment) (effects : List Effect)
    → Inv s
    → run s moments ≡ some (t, effects)
    → Inv t
unfolding run
run-Inv s t [] effects v e = ground arith
run-Inv s t (m ∷ ms) effects v e = elim (Option-cases (step m.net m.cfg s m.msg)) [
  | inl gone ↦ ground arith
  | inr ((u, now), got) ↦ elim (Option-cases (run u ms)) [
    | inl gone ↦ ground arith
    | inr ((x, more), rest) ↦
        let v' : Inv x = run-Inv u x ms more (step-Inv m.net m.cfg s u m.msg now v got) rest in
        ground arith
  ]
]
