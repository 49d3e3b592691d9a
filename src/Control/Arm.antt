-- ===== src/Control/Arm.antt =====
-- `ControlMsg::Arm` (mint-sniper/src/main.rs).
use seasniper.Common.{
  ℕ, ◌-◌, Bool, true, false, Option, none, some, List, [], ◌∷◌, ◌++◌, ◌&&◌, ltb, leb, trim, is_some,
  str_eq, if◌then◌else◌,
}
use seasniper.Common.Int.{ℤ, unsigned_abs}
use seasniper.Bus.{
  info, warn, error, armed_state, already_armed, refusing_to_arm, inclusion_detection,
  bad_mint_enable_admin, unrecognised_trigger_mode, armed,
}
use seasniper.Config.{Config, block_ticker_ws_url}
use seasniper.Net.{Net}
use seasniper.Inclusion.{establish_block_ticker}
use seasniper.Effect.{
  Effect, Task, plain_watcher, supervised_watcher, forward_trigger, prepare_timer, reprepare_loop,
  timestamp, mempool, state_poll, prepare, emit, send, spawn, log_now, emit_all,
}
use seasniper.Executor.Warm.{warm_connections, warm_sequencer}
use seasniper.Control.State.{Loop}
use seasniper.Control.Clock.{log_clock_drift_check}

abbrev pub prepare_lead_secs : ℕ
prepare_lead_secs = 5

abbrev pub poll_state_reprepare_interval_secs : ℕ
poll_state_reprepare_interval_secs = 30

exceeds : ℕ → Option ℤ → Bool
exceeds limit none = false
exceeds limit (some drift) = leb limit (unsigned_abs drift)

-- Whether the clock check refuses the arm, and what it logged.
unfoldable pub drift_gate : Net → Config → List Effect × Bool
unfolding exceeds
drift_gate net cfg =
    let (events, drift) = log_clock_drift_check net cfg.clock_check_url cfg.clock_drift_warn_ms in
    if str_eq cfg.trigger_mode "timestamp" && ltb 0 cfg.clock_drift_refuse_arm_ms
    then (events, exceeds cfg.clock_drift_refuse_arm_ms drift)
    else ([], false)

poll_watcher : Config → Loop → Task
poll_watcher cfg s = supervised_watcher (state_poll cfg.ws_rpc_url s.contract s.mint_state_selector)

mempool_watcher : Net → Config → Loop → Option ℕ → List Effect × Task
unfolding poll_watcher
mempool_watcher net cfg s (some admin) =
    ([], supervised_watcher (mempool cfg.ws_rpc_url admin s.admin_watch_target))
mempool_watcher net cfg s none = (log_now net error bad_mint_enable_admin ∷ [], poll_watcher cfg s)

-- The watcher of the configured mode; what is not understood is logged and polled for.
unfoldable pub watcher_for : Net → Config → Loop → List Effect × Task
unfolding poll_watcher mempool_watcher
watcher_for net cfg s =
    let mode = cfg.trigger_mode in
    if str_eq mode "timestamp"
    then ([], plain_watcher (timestamp cfg.trigger_timestamp_unix))
    else (if str_eq mode "mempool_watch"
        then mempool_watcher net cfg s (net.parse_address (trim cfg.mint_enable_admin))
        else (if str_eq mode "poll_state"
            then ([], poll_watcher cfg s)
            else (log_now net warn (unrecognised_trigger_mode mode) ∷ [], poll_watcher cfg s)))

-- The timestamp mode with a known instant signs shortly before it; every other mode signs at once,
-- and then again at an interval.
unfoldable pub has_known_instant : Config → Bool
has_known_instant cfg = str_eq cfg.trigger_mode "timestamp" && ltb 0 cfg.trigger_timestamp_unix

-- The connections that an arm session holds, and the watcher.
unfoldable pub armed_state_of : Net → Config → Loop → Loop
armed_state_of net cfg s =
    let known = has_known_instant cfg in
    record s {
      armed = true;
      warmed_providers = (warm_connections net cfg).1;
      warmed_sequencer = (warm_sequencer net cfg).1;
      block_ticker = establish_block_ticker net.subscribe_blocks (block_ticker_ws_url cfg);
      prepared_fire = none;
      watcher_handle = some (watcher_for net cfg s).1;
      prepare_timer_handle =
          if known
          then some (prepare_timer (cfg.trigger_timestamp_unix - net.now - prepare_lead_secs))
          else s.prepare_timer_handle;
      reprepare_handle =
          if known
          then s.reprepare_handle
          else some (reprepare_loop poll_state_reprepare_interval_secs);
    }

schedule : Net → Config → List Effect
schedule net cfg =
    if has_known_instant cfg
    then spawn (prepare_timer (cfg.trigger_timestamp_unix - net.now - prepare_lead_secs)) ∷ []
    else send prepare ∷ spawn (reprepare_loop poll_state_reprepare_interval_secs) ∷ []

unfoldable pub arm_session : Net → Config → Loop → Loop × List Effect
unfolding schedule
arm_session net cfg s =
    let (watcher_events, watcher) = watcher_for net cfg s in
    (
      armed_state_of net cfg s,
      emit_all (warm_connections net cfg).0
          ++ emit_all (warm_sequencer net cfg).0
          ++ log_now net info (
              inclusion_detection
                (is_some (establish_block_ticker net.subscribe_blocks (block_ticker_ws_url cfg))))
            ∷ emit (armed_state true)
            ∷ watcher_events
          ++ spawn watcher ∷ spawn forward_trigger ∷ schedule net cfg
          ++ log_now net info (armed cfg.trigger_mode) ∷ [],
    )

unfoldable pub handle_arm : Net → Config → Loop → Loop × List Effect
handle_arm net cfg s =
    let (events, refused) = drift_gate net cfg in
    let (t, effects) = arm_session net cfg s in
    if is_some s.watcher_handle
    then (s, log_now net warn already_armed ∷ [])
    else (if refused
        then (s, events ++ log_now net error refusing_to_arm ∷ [])
        else (t, events ++ effects))
