-- ===== src/Control/Sends.antt =====
-- What `FireNow` hands to the nodes (`control_loop` of mint-sniper/src/main.rs).
use seasniper.Common.{
  ℕ, Bool, true, false, Option, none, some, List, [], ◌∷◌, ◌++◌, ◌≡◌, ◌∙◌, ap, refl, arith, any,
  ◌&&◌, ◌==◌, All, All-append, flat_map, String,
}
use mathlib.Core.List.{append-nil}
use seasniper.Common.Results.{Result, ok, err}
use seasniper.Failure.{Failure}
use seasniper.Bus.{ServerEvent, Note, armed_state, fire_failed}
use seasniper.Config.{Config}
use seasniper.Wallet.{ManagedWallet, Envelope}
use seasniper.Net.{Net}
use seasniper.Effect.{Effect, emit_all, emit, Task}
use seasniper.Executor.Prepare.{PreparedWallet, PreparedFire, prepare_fire}
use seasniper.Executor.Fire.{FireContext}
use seasniper.Executor.Prepare.Batch.{BatchFor, prepare_fire-BatchFor}
use seasniper.Executor.Report.{fire_prepared}
use seasniper.Executor.Report.Coverage.{
  sent, sent-append, sent-emit_all, reached, to_each, fire_prepared-sent,
}
use seasniper.Control.Cache.{Current, FreshBatch}
use seasniper.Control.State.{Loop, current_call, abort_tasks, abort_handle}
use seasniper.Control.Fire.{
  Fired, Signed, fire_signed, connections, commit, sign_and_fire, fire_current, fire_cached,
  fire_unprepared, prepared_context, handle_fire_now, log_failure,
}

-- A transaction that some wallet's key signed at its next nonce, for this contract and calldata.
abbrev is_next : List ManagedWallet → Envelope → Bool
is_next ws tx = any (λ w. (w.signer == tx.key) && (w.next_nonce == tx.request.nonce)) ws

pub record IsNext (contract : ℕ) (calldata : List ℕ) (ws : List ManagedWallet) (tx : Envelope)
    : Type 0 where
  pub next_of : is_next ws tx ≡ true
  pub to_of : tx.request.to ≡ contract
  pub input_of : tx.request.input ≡ calldata

module _ (contract : ℕ) (calldata : List ℕ) where
  AllNext : List ManagedWallet → List PreparedWallet → Type 0
  AllNext ws = All (λ pw. IsNext contract calldata ws pw.raw_tx)

  AllNext-cons :
      (w : ManagedWallet) (ws : List ManagedWallet) (batch : List PreparedWallet)
      → AllNext ws batch
      → AllNext (w ∷ ws) batch
  unfolding AllNext
  AllNext-cons w ws [] h = tt
  AllNext-cons w ws (pw ∷ batch) h = (ground arith, AllNext-cons w ws batch h.1)

  BatchFor-AllNext :
      (ws : List ManagedWallet) (batch : List PreparedWallet)
      → BatchFor contract calldata ws batch
      → AllNext ws batch
  unfolding AllNext
  BatchFor-AllNext [] [] b = tt
  BatchFor-AllNext [] (pw ∷ batch) b = elim b [ ]
  BatchFor-AllNext (w ∷ ws) [] b = elim b [ ]
  BatchFor-AllNext (w ∷ ws) (pw ∷ batch) b = (
    ground (arith, b.0.key_of, b.0.nonce_of, b.0.to_of, b.0.input_of),
    AllNext-cons w ws batch (BatchFor-AllNext ws batch b.1),
  )

  to_each-All :
      (ws : List ManagedWallet) (urls : List String) (pw : PreparedWallet)
      → IsNext contract calldata ws pw.raw_tx
      → All (λ p. IsNext contract calldata ws p.1) (to_each urls pw)
  to_each-All ws [] pw h = tt
  to_each-All ws (url ∷ urls) pw h = (h, to_each-All ws urls pw h)

  flat_map-All :
      (ws : List ManagedWallet) (urls : List String) (batch : List PreparedWallet)
      → AllNext ws batch
      → All (λ p. IsNext contract calldata ws p.1) (flat_map (to_each urls) batch)
  unfolding AllNext
  flat_map-All ws urls [] h = tt
  flat_map-All ws urls (pw ∷ batch) h =
      All-append (λ p. IsNext contract calldata ws p.1) (to_each urls pw)
        (flat_map (to_each urls) batch) (to_each-All ws urls pw h.0)
        (flat_map-All ws urls batch h.1)

-- What an effect list sends was signed at a next nonce.
abbrev pub SendsNext : ℕ → List ℕ → List ManagedWallet → List Effect → Type 0
SendsNext contract calldata ws effects = All (λ p. IsNext contract calldata ws p.1) (sent effects)

module _ (net : Net) (contract : ℕ) (calldata : List ℕ) (ws : List ManagedWallet) where
  commit-SendsNext :
      (ctx : FireContext) (events : List ServerEvent) (batch : List PreparedWallet)
      → BatchFor contract calldata ws batch
      → SendsNext contract calldata ws (commit net ctx ws (emit_all events) batch).effects
  unfolding commit
  commit-SendsNext ctx events batch b =
      let h : sent (emit_all events ++ (fire_prepared net ctx batch).0)
          ≡ flat_map (to_each (reached ctx)) batch =
        ground (
          arith,
          sent-append (emit_all events) (fire_prepared net ctx batch).0,
          sent-emit_all events,
          fire_prepared-sent net ctx batch,
        ) in
      rw h (
        flat_map-All contract calldata ws (reached ctx) batch
          (BatchFor-AllNext contract calldata ws batch b))

  fire_signed-SendsNext :
      (ctx : FireContext) (r : Signed)
      → ((batch : List PreparedWallet) → r.1 ≡ ok batch → BatchFor contract calldata ws batch)
      → SendsNext contract calldata ws (fire_signed net ctx ws r).effects
  unfolding fire_signed
  fire_signed-SendsNext ctx (events, ok batch) signed =
      commit-SendsNext ctx events batch (signed batch refl)
  fire_signed-SendsNext ctx (events, err e) signed = rw (sent-emit_all events) tt

fire_unprepared-SendsNext :
    (net : Net) (cfg : Config) (s : Loop)
    → SendsNext s.contract s.mint_calldata s.wallets (fire_unprepared net cfg s).effects
unfolding fire_unprepared sign_and_fire
fire_unprepared-SendsNext net cfg s =
    let ctx : FireContext = (connections net cfg s).1 in
    let r : Signed = prepare_fire net ctx.cfg s.wallets (current_call s) ctx.providers in
    let h : sent (emit_all (connections net cfg s).0 ++ (fire_signed net ctx s.wallets r).effects)
        ≡ sent (fire_signed net ctx s.wallets r).effects =
      ground (
        arith,
        sent-append (emit_all (connections net cfg s).0) (fire_signed net ctx s.wallets r).effects,
        sent-emit_all (connections net cfg s).0,
      ) in
    rw h (
      fire_signed-SendsNext net s.contract s.mint_calldata s.wallets ctx r (λ batch signed.
        (prepare_fire-BatchFor net ctx.cfg (current_call s) s.wallets ctx.providers batch
          signed).0))

fire_cached-SendsNext :
    (net : Net) (cfg : Config) (s : Loop) (cached : Option PreparedFire)
    → Current s.contract s.mint_calldata s.wallets cached
    → SendsNext s.contract s.mint_calldata s.wallets (fire_cached net cfg s cached).effects
unfolding fire_cached
fire_cached-SendsNext net cfg s (some pf) f =
    commit-SendsNext net s.contract s.mint_calldata s.wallets (prepared_context cfg s pf) []
      pf.wallets f
fire_cached-SendsNext net cfg s none f = fire_unprepared-SendsNext net cfg s

sent-log_failure :
    (net : Net) (note : Failure → Note) (r : Result Failure (Unit {0}))
    → sent (log_failure net note r) ≡ []
sent-log_failure net note (ok x) = refl
sent-log_failure net note (err e) = refl

sent-abort_handle : (h : Option Task) → sent (abort_handle h) ≡ []
sent-abort_handle none = refl
sent-abort_handle (some task) = refl

sent-abort_tasks : (s : Loop) → sent (abort_tasks s) ≡ []
sent-abort_tasks s = ground (
  arith,
  sent-append (abort_handle s.watcher_handle)
      (abort_handle s.prepare_timer_handle ++ abort_handle s.reprepare_handle),
  sent-append (abort_handle s.prepare_timer_handle) (abort_handle s.reprepare_handle),
  sent-abort_handle s.watcher_handle,
  sent-abort_handle s.prepare_timer_handle,
  sent-abort_handle s.reprepare_handle,
)

sent-quiet : (xs ys : List Effect) → sent ys ≡ [] → sent (xs ++ ys) ≡ sent xs
sent-quiet xs ys h = sent-append xs ys ∙ ap (λ zs. sent xs ++ zs) h ∙ append-nil (sent xs)

sent-handle_fire_now :
    (net : Net) (cfg : Config) (s : Loop)
    → sent (handle_fire_now net cfg s).1 ≡ sent (fire_current net cfg s).effects
unfolding handle_fire_now
sent-handle_fire_now net cfg s =
    let fired : Fired = fire_current net cfg s in
    let failure : List Effect = log_failure net fire_failed fired.result in
    sent-quiet (fired.effects ++ failure ++ abort_tasks s) (emit (armed_state false) ∷ []) refl
    ∙ sent-quiet (fired.effects ++ failure) (abort_tasks s) (sent-abort_tasks s)
    ∙ sent-quiet fired.effects failure (sent-log_failure net fire_failed fired.result)

-- While the cached batch is fresh, everything that `FireNow` hands to a node, cached or signed then, is
-- signed by the key of a managed wallet at that wallet's next nonce, for the loop's contract and calldata.
pub handle_fire_now-SendsNext :
    (net : Net) (cfg : Config) (s : Loop)
    → FreshBatch s
    → SendsNext s.contract s.mint_calldata s.wallets (handle_fire_now net cfg s).1
unfolding fire_current
handle_fire_now-SendsNext net cfg s f =
    rw (sent-handle_fire_now net cfg s) (fire_cached-SendsNext net cfg s s.prepared_fire f)
