-- ===== src/Control/Flags.antt =====
-- What each message does to the arm flag (mint-sniper/src/main.rs).
use seasniper.Common.{
  ℕ, Bool, false, some, List, ◌≡◌, ◌||◌, not, arith, is_nil, Bool-cases, Option-cases, inl, inr,
}
use seasniper.Config.{Config}
use seasniper.Net.{Net}
use seasniper.Effect.{
  Effect, ControlMsg, arm, disarm, fire_now, prepare, fire_copymint, set_target, fire_delegated,
}
use seasniper.Control.State.{Loop, end_session}
use seasniper.Control.Arm.{handle_arm, arm_session, armed_state_of, drift_gate}
use seasniper.Control.Ready.{
  handle_prepare, handle_disarm, sign_at, sign_all, store_prepared, fresh_value,
}
use seasniper.Control.Fire.{handle_fire_now, handle_fire_copymint}
use seasniper.Control.Step.{step, handle_set_target, handle_fire_delegated}
use seasniper.Control.Lifecycle.{Inv}

-- The flag after a message, from the flag before it and the verdict of the clock check.
abbrev pub armed_after : (refused : Bool) → ControlMsg → Bool → Bool
armed_after refused arm armed = armed || not refused
armed_after refused disarm armed = false
armed_after refused fire_now armed = false
armed_after refused prepare armed = armed
armed_after refused (fire_copymint c d v) armed = armed
armed_after refused (set_target n d v) armed = false
armed_after refused fire_delegated armed = armed

sign_at-armed :
    (net : Net) (cfg : Config) (s : Loop) (fresh : ℕ × List Effect)
    → (sign_at net cfg s fresh).0.armed ≡ s.armed
unfolding sign_at sign_all store_prepared
sign_at-armed net cfg s fresh = ground arith

handle_prepare-armed :
    (net : Net) (cfg : Config) (s t : Loop) (effects : List Effect)
    → handle_prepare net cfg s ≡ some (t, effects)
    → t.armed ≡ s.armed
unfolding handle_prepare
handle_prepare-armed net cfg s t effects e = elim (Bool-cases (is_nil s.warmed_providers)) [
  | inl empty ↦ ground arith
  | inr warmed ↦ elim (Option-cases (fresh_value net cfg s)) [
    | inl gone ↦ ground arith
    | inr (fresh, got) ↦ ground (arith, sign_at-armed net cfg s fresh)
  ]
]

-- The loop is armed after `Arm` unless the clock check refused a first arm; `FireNow`, `Disarm` and
-- `SetTarget` disarm it, whatever they met; no other message changes the flag.
pub step-armed :
    (net : Net) (cfg : Config) (s t : Loop) (msg : ControlMsg) (effects : List Effect)
    → Inv s
    → step net cfg s msg ≡ some (t, effects)
    → t.armed ≡ armed_after (drift_gate net cfg).1 msg s.armed
unfolding step handle_set_target handle_fire_delegated end_session
step-armed net cfg s t arm effects v e = armed_case
  where
    armed_case : t.armed ≡ s.armed || not (drift_gate net cfg).1
    armed_case = unfold handle_arm arm_session armed_state_of in ground arith
step-armed net cfg s t disarm effects v e = unfold handle_disarm in ground arith
step-armed net cfg s t fire_now effects v e = unfold handle_fire_now in ground arith
step-armed net cfg s t prepare effects v e = handle_prepare-armed net cfg s t effects e
step-armed net cfg s t (fire_copymint c d x) effects v e =
    unfold handle_fire_copymint in ground arith
step-armed net cfg s t (set_target n d x) effects v e = ground arith
step-armed net cfg s t fire_delegated effects v e = ground arith
