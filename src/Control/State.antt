-- ===== src/Control/State.antt =====
-- The variables of `control_loop` (mint-sniper/src/main.rs) and the cleanup that ends an arm session.
-- `armed` is the flag of `AppState`, which this task alone writes.
use seasniper.Common.{
  ℕ, ◌+◌, wrap_u64, String, Bool, false, Option, none, some, List, [], ◌∷◌, ◌++◌, ◌==◌, any, map,
  if◌then◌else◌,
}
use seasniper.Wallet.{ManagedWallet}
use seasniper.Inclusion.{BlockTicker}
use seasniper.Effect.{Effect, Task, abort}
use seasniper.Executor.Prepare.{PreparedWallet, PreparedFire, MintCall}

pub record Loop : Type 0 where
  pub armed : Bool
  pub contract : ℕ
  pub mint_state_selector : List ℕ
  pub admin_watch_target : ℕ
  pub mint_calldata : List ℕ
  pub mint_value : ℕ
  pub watcher_handle : Option Task
  pub prepare_timer_handle : Option Task
  pub reprepare_handle : Option Task
  pub warmed_providers : List String
  pub warmed_sequencer : Option String
  pub prepared_fire : Option PreparedFire
  pub block_ticker : Option BlockTicker
  pub wallets : List ManagedWallet

-- The mint that the loop is set to.
abbrev pub current_call : Loop → MintCall
current_call s = record { contract = s.contract; calldata = s.mint_calldata; value = s.mint_value }

abbrev pub abort_handle : Option Task → List Effect
abort_handle none = []
abort_handle (some task) = abort task ∷ []

-- `if let Some(h) = handle.take() { h.abort() }`, three times.
abbrev pub abort_tasks : Loop → List Effect
abort_tasks s =
    abort_handle s.watcher_handle
    ++ abort_handle s.prepare_timer_handle
    ++ abort_handle s.reprepare_handle

unfoldable pub end_session : Loop → Loop
end_session s = record s {
  armed = false;
  watcher_handle = none;
  prepare_timer_handle = none;
  reprepare_handle = none;
  warmed_providers = [];
  warmed_sequencer = none;
  prepared_fire = none;
  block_ticker = none;
}

abbrev pub is_prepared : List PreparedWallet → ManagedWallet → Bool
is_prepared prepared w = any (λ pw. pw.address == w.address) prepared

abbrev pub advance : List PreparedWallet → ManagedWallet → ManagedWallet
advance prepared w =
    if is_prepared prepared w then record w { next_nonce = wrap_u64 (w.next_nonce + 1) } else w

unfoldable pub advance_nonces : List ManagedWallet → List PreparedWallet → List ManagedWallet
advance_nonces wallets prepared = map (advance prepared) wallets
