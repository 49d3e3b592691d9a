-- ===== src/Effect.antt =====
-- What a step of the program does to the outside: events on the bus, messages to the control channel,
-- tasks that it spawns or aborts, and transactions that it hands to an RPC node.
use seasniper.Common.{ℕ, String, List, map}
use seasniper.Bus.{ServerEvent, Level, Note, log}
use seasniper.Config.{Config}
use seasniper.Wallet.{Envelope}
use seasniper.Net.{Net}

-- `ControlMsg` of state.rs.
pub data ControlMsg : Type 0 where
  arm disarm fire_now prepare : ControlMsg
  fire_copymint : (contract : ℕ) (calldata : List ℕ) (value : ℕ) → ControlMsg
  set_target : (nft_contract : ℕ) (mint_calldata : List ℕ) (mint_value : ℕ) → ControlMsg
  fire_delegated : ControlMsg

-- The watchers of watcher.rs, with their arguments.
pub data Watcher : Type 0 where
  timestamp : (target : ℕ) → Watcher
  mempool : (ws_url : String) (admin watch_target : ℕ) → Watcher
  state_poll : (ws_url : String) (contract : ℕ) (selector : List ℕ) → Watcher

pub data Task : Type 0 where
  -- `tokio::spawn` of a watcher, or `spawn_supervised_watcher`.
  plain_watcher supervised_watcher : Watcher → Task
  -- Sends `FireNow` when the trigger flips.
  forward_trigger : Task
  -- Sends `Prepare` after so many seconds.
  prepare_timer : ℕ → Task
  -- Sends `Prepare` every so many seconds.
  reprepare_loop : ℕ → Task
  delegated_run : Config → Task

pub data Effect : Type 0 where
  emit : ServerEvent → Effect
  send : ControlMsg → Effect
  spawn : Task → Effect
  abort : Task → Effect
  broadcast : String → Envelope → Effect

-- `bus::log`.
abbrev pub log_now : Net → Level → Note → Effect
log_now net level note = emit (log level note net.now)

abbrev pub emit_all : List ServerEvent → List Effect
emit_all = map emit
