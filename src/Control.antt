-- ===== src/Control.antt =====
-- The control loop (`control_loop` of mint-sniper/src/main.rs): the one task that arms, disarms,
-- prepares and fires. A step handles one message of the control channel: it reads the configuration of
-- that moment and returns the new state and what the step did. `State` has the state, `Arm`, `Ready`,
-- `Fire` and `Target` the handlers, `Step` the dispatch; the proofs are in `Lifecycle` and `Nonces`.
pub mod State
pub mod Clock
pub mod Arm
pub mod Ready
pub mod Fire
pub mod Step
pub mod Lifecycle
pub mod Flags
pub mod Panics
pub mod Nonces
pub mod Cache
pub mod Sends
