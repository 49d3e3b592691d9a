-- ===== src/Control/Fire.antt =====
-- `ControlMsg::FireNow` and `ControlMsg::FireCopymint` (mint-sniper/src/main.rs).
use seasniper.Common.{Bool, Option, none, some, List, [], ◌∷◌, ◌++◌, is_nil, is_some, if◌then◌else◌}
use seasniper.Common.Results.{Result, ok, err}
use seasniper.Failure.{Failure}
use seasniper.Bus.{
  ServerEvent, Note, warn, error, armed_state, firing, firing_unprepared, fire_failed,
  firing_copymint, copymint_fire_failed, copymint_prepare_failed,
}
use seasniper.Config.{Config, block_ticker_ws_url}
use seasniper.Inclusion.{BlockTicker, establish_block_ticker}
use seasniper.Net.{Net}
use seasniper.Effect.{Effect, emit, log_now, emit_all}
use seasniper.Wallet.{ManagedWallet}
use seasniper.Executor.Warm.{warm_connections, warm_sequencer}
use seasniper.Executor.Prepare.{PreparedWallet, PreparedFire, MintCall, prepare_fire}
use seasniper.Executor.Fire.{FireContext}
use seasniper.Executor.Report.{fire_prepared}
use seasniper.Control.State.{Loop, current_call, abort_tasks, end_session, advance_nonces}

-- What a fire leaves: the wallets, what it did, and how it ended.
pub record Fired : Type 0 where
  pub wallets : List ManagedWallet
  pub effects : List Effect
  pub result : Result Failure (Unit {0})

-- The warmed connections of the session, or fresh ones.
unfoldable pub connections : Net → Config → Loop → List ServerEvent × FireContext
connections net cfg s =
    let ticker : Option BlockTicker =
      if is_some s.block_ticker
      then s.block_ticker
      else establish_block_ticker net.subscribe_blocks (block_ticker_ws_url cfg) in
    if is_nil s.warmed_providers
    then (
      (warm_connections net cfg).0 ++ (warm_sequencer net cfg).0,
      record {
        cfg = cfg;
        providers = (warm_connections net cfg).1;
        sequencer = (warm_sequencer net cfg).1;
        block_ticker = ticker;
      },
    )
    else (
      [],
      record {
        cfg = cfg;
        providers = s.warmed_providers;
        sequencer = s.warmed_sequencer;
        block_ticker = ticker;
      },
    )

-- Commit to a batch: its nonces are used, and it is broadcast.
unfoldable pub commit :
    Net → FireContext → List ManagedWallet → List Effect → List PreparedWallet → Fired
commit net ctx wallets before prepared =
    let (effects, result) = fire_prepared net ctx prepared in
    record {
      wallets = advance_nonces wallets prepared;
      effects = before ++ effects;
      result = result;
    }

abbrev pub Signed : Type 0
Signed = List ServerEvent × Result Failure (List PreparedWallet)

unfoldable pub fire_signed : Net → FireContext → List ManagedWallet → Signed → Fired
fire_signed net ctx wallets (events, ok batch) = commit net ctx wallets (emit_all events) batch
fire_signed net ctx wallets (events, err e) = record {
  wallets = wallets;
  effects = emit_all events;
  result = err e;
}

-- Sign now and fire.
unfoldable pub sign_and_fire : Net → FireContext → List ManagedWallet → MintCall → Fired
sign_and_fire net ctx wallets call =
    fire_signed net ctx wallets (prepare_fire net ctx.cfg wallets call ctx.providers)

unfoldable pub fire_unprepared : Net → Config → Loop → Fired
fire_unprepared net cfg s =
    let (events, ctx) = connections net cfg s in
    let fired = sign_and_fire net ctx s.wallets (current_call s) in
    record fired { effects = log_now net warn firing_unprepared ∷ emit_all events ++ fired.effects }

unfoldable pub prepared_context : Config → Loop → PreparedFire → FireContext
prepared_context cfg s pf = record {
  cfg = cfg;
  providers = pf.providers;
  sequencer = pf.sequencer;
  block_ticker = s.block_ticker;
}

-- The cached batch where there is one, and otherwise one that is signed now.
unfoldable pub fire_cached : Net → Config → Loop → Option PreparedFire → Fired
unfolding fire_unprepared prepared_context
fire_cached net cfg s (some pf) = commit net (prepared_context cfg s pf) s.wallets [] pf.wallets
fire_cached net cfg s none = fire_unprepared net cfg s

unfoldable pub fire_current : Net → Config → Loop → Fired
fire_current net cfg s = fire_cached net cfg s s.prepared_fire

abbrev pub log_failure : Net → (Failure → Note) → Result Failure (Unit {0}) → List Effect
log_failure net note (ok _) = []
log_failure net note (err e) = log_now net error (note e) ∷ []

unfoldable pub handle_fire_now : Net → Config → Loop → Loop × List Effect
handle_fire_now net cfg s =
    let fired = fire_current net cfg s in
    (
      record (end_session s) { wallets = fired.wallets },
      log_now net warn firing ∷ fired.effects
          ++ log_failure net fire_failed fired.result
          ++ abort_tasks s
          ++ emit (armed_state Bool.false) ∷ [],
    )

-- The copymint fire logs a failed signing and a failed broadcast in its own words.
unfoldable pub copymint_signed : Net → FireContext → List ManagedWallet → Signed → Fired
copymint_signed net ctx wallets (events, ok batch) =
    let fired = commit net ctx wallets (emit_all events) batch in
    record fired { effects = fired.effects ++ log_failure net copymint_fire_failed fired.result }
copymint_signed net ctx wallets (events, err e) = record {
  wallets = wallets;
  effects = emit_all events ++ log_now net error (copymint_prepare_failed e) ∷ [];
  result = err e;
}

unfoldable pub copymint_fired : Net → FireContext → List ManagedWallet → MintCall → Fired
copymint_fired net ctx wallets call =
    copymint_signed net ctx wallets (prepare_fire net ctx.cfg wallets call ctx.providers)

abbrev pub copymint_result : Net → Config → Loop → MintCall → Result Failure (Unit {0})
copymint_result net cfg s call =
    (copymint_fired net (connections net cfg s).1 s.wallets call).result

-- Independent of the arm session, which it leaves as it is.
unfoldable pub handle_fire_copymint : Net → Config → Loop → MintCall → Loop × List Effect
unfolding copymint_fired
handle_fire_copymint net cfg s call =
    let (events, ctx) = connections net cfg s in
    let fired = copymint_fired net ctx s.wallets call in
    (
      record s { wallets = fired.wallets },
      log_now net warn (firing_copymint call.contract) ∷ emit_all events ++ fired.effects,
    )
