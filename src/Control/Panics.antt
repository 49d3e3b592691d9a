-- ===== src/Control/Panics.antt =====
-- When a message ends the task of the control loop (mint-sniper/src/main.rs): the panics that it can meet.
use seasniper.Common.{
  ◌^◌, ◌<◌, ◌⊎◌, String, Bool, true, false, Option, none, some, List, [], ◌∷◌, ◌≡◌, refl, arith,
  is_nil, first, str_eq, Bool-cases, Option-cases, inl, inr,
}
use seasniper.Common.Results.{err, Result-cases}
use seasniper.Failure.{Failure, is_panic, unless_panic-none}
use seasniper.Config.{Config}
use seasniper.Net.{Net}
use seasniper.Wallet.{ManagedWallet}
use seasniper.Seadrop.{fetch_public_drop}
use seasniper.Seadrop.Words.{Wide, fetch_public_drop-Wide}
use seasniper.Effect.{
  ControlMsg, arm, disarm, fire_now, prepare, fire_copymint, set_target, fire_delegated,
}
use seasniper.Executor.Fees.{gas_jitter_pct}
use seasniper.Executor.Prepare.{
  MintCall, Quote, PreparedWallet, PreparedFire, quote, prepare_wallet, prepare_wallets,
  prepare_fire,
}
use seasniper.Executor.Fire.{FireContext}
use seasniper.Executor.Report.{fire_prepared}
use seasniper.Control.State.{Loop, current_call}
use seasniper.Control.Ready.{
  fetch_first, fresh_value, recheck_price, handle_prepare, signing, sign_at,
}
use seasniper.Control.Fire.{
  connections, commit, fire_signed, sign_and_fire, fire_unprepared, prepared_context, fire_cached,
  fire_current, copymint_signed, copymint_fired, copymint_result, handle_fire_now,
  handle_fire_copymint,
}
use seasniper.Control.Step.{step}

-- The gas jitter is negative as an `i64`, and there is a wallet to sample it for.
abbrev pub EmptyRange : Config → List ManagedWallet → Type 0
EmptyRange cfg wallets = (2 ^ 63 < cfg.gas_jitter_pct) × (is_nil wallets ≡ false)

prepare_wallet-EmptyRange :
    (net : Net) (cfg : Config) (call : MintCall) (q : Quote) (w : ManagedWallet) (e : Failure)
    → prepare_wallet net cfg call q w ≡ err e
    → is_panic e ≡ true
    → 2 ^ 63 < cfg.gas_jitter_pct
unfolding prepare_wallet gas_jitter_pct
prepare_wallet-EmptyRange net cfg call q w e h panic = ground arith

prepare_wallets-EmptyRange :
    (net : Net) (cfg : Config) (call : MintCall) (q : Quote) (ws : List ManagedWallet) (e : Failure)
    → (prepare_wallets net cfg call q ws).1 ≡ err e
    → is_panic e ≡ true
    → EmptyRange cfg ws
unfolding prepare_wallets
prepare_wallets-EmptyRange net cfg call q [] e h panic = ground arith
prepare_wallets-EmptyRange net cfg call q (w ∷ ws) e h panic =
    elim (Result-cases (prepare_wallet net cfg call q w)) [
      | inr (f, failed) ↦
          let same : f ≡ e = ground arith in
          (prepare_wallet-EmptyRange net cfg call q w e (ground (arith, failed, same)) panic, refl)
      | inl (pw, signed) ↦ elim (Result-cases (prepare_wallets net cfg call q ws).1) [
        | inl (rest, all_signed) ↦ ground arith
        | inr (f, failed) ↦
            let same : f ≡ e = ground arith in
            let tail =
              prepare_wallets-EmptyRange net cfg call q ws e (ground (arith, failed, same)) panic in
            (tail.0, refl)
      ]
    ]

quote-fails :
    (net : Net) (cfg : Config) (ws : List ManagedWallet) (call : MintCall) (providers : List String)
    (e : Failure)
    → quote net cfg ws call providers ≡ err e
    → is_panic e ≡ false
unfolding quote
quote-fails net cfg ws call [] e h = ground arith
quote-fails net cfg ws call (reader ∷ providers) e h = ground arith

prepare_fire-EmptyRange :
    (net : Net) (cfg : Config) (ws : List ManagedWallet) (call : MintCall) (providers : List String)
    (e : Failure)
    → (prepare_fire net cfg ws call providers).1 ≡ err e
    → is_panic e ≡ true
    → EmptyRange cfg ws
unfolding prepare_fire
prepare_fire-EmptyRange net cfg ws call providers e h panic =
    elim (Result-cases (quote net cfg ws call providers)) [
      | inl (q, quoted) ↦ prepare_wallets-EmptyRange net cfg call q ws e (ground arith) panic
      | inr (f, refused) ↦ ground (arith, quote-fails net cfg ws call providers f refused)
    ]

fire_prepared-fails :
    (net : Net) (ctx : FireContext) (batch : List PreparedWallet) (e : Failure)
    → (fire_prepared net ctx batch).1 ≡ err e
    → is_panic e ≡ false
unfolding fire_prepared
fire_prepared-fails net ctx batch e h = ground arith

sign_and_fire-EmptyRange :
    (net : Net) (ctx : FireContext) (ws : List ManagedWallet) (call : MintCall) (e : Failure)
    → (sign_and_fire net ctx ws call).result ≡ err e
    → is_panic e ≡ true
    → EmptyRange ctx.cfg ws
unfolding sign_and_fire fire_signed commit
sign_and_fire-EmptyRange net ctx ws call e h panic =
    elim (Result-cases (prepare_fire net ctx.cfg ws call ctx.providers).1) [
      | inl (batch, signed) ↦ ground (arith, fire_prepared-fails net ctx batch e)
      | inr (f, failed) ↦
          prepare_fire-EmptyRange net ctx.cfg ws call ctx.providers e (ground arith) panic
    ]

-- Whatever was cached, a fire panics only where it signs.
fire_current-EmptyRange :
    (net : Net) (cfg : Config) (s : Loop) (e : Failure)
    → (fire_current net cfg s).result ≡ err e
    → is_panic e ≡ true
    → EmptyRange cfg s.wallets
unfolding fire_current fire_cached fire_unprepared commit
fire_current-EmptyRange net cfg s e h panic = go s.prepared_fire h
  where
    go :
        (cached : Option PreparedFire)
        → (fire_cached net cfg s cached).result ≡ err e
        → EmptyRange cfg s.wallets
    go (some pf) came =
        ground
          (arith, came, panic, fire_prepared-fails net (prepared_context cfg s pf) pf.wallets e)
    go none came =
        let range =
          sign_and_fire-EmptyRange net (connections net cfg s).1 s.wallets (current_call s) e came
            panic in
        unfold connections in ground (arith, range)

copymint_result-EmptyRange :
    (net : Net) (cfg : Config) (s : Loop) (call : MintCall) (e : Failure)
    → copymint_result net cfg s call ≡ err e
    → is_panic e ≡ true
    → EmptyRange cfg s.wallets
unfolding copymint_fired copymint_signed commit
copymint_result-EmptyRange net cfg s call e h panic =
    let ctx = (connections net cfg s).1 in
    let same : ctx.cfg ≡ cfg = unfold connections in ground arith in
    elim (Result-cases (prepare_fire net ctx.cfg s.wallets call ctx.providers).1) [
      | inl (batch, signed) ↦ ground (arith, fire_prepared-fails net ctx batch e)
      | inr (f, failed) ↦
          rw (← same) (
            prepare_fire-EmptyRange net ctx.cfg s.wallets call ctx.providers e (ground arith) panic)
    ]

-- The price check reads the drop at the first RPC of the list: there is none, or its answer does not fit.
pub record Unreadable (net : Net) (cfg : Config) (s : Loop) : Type 0 where
  pub connected : is_nil s.warmed_providers ≡ false
  pub seadrop : str_eq cfg.mint_mode "seadrop" ≡ true
  pub waits : str_eq cfg.trigger_mode "timestamp" ≡ false
  pub first_read :
      (cfg.http_rpc_urls ≡ [])
      ⊎ ((url : String) × (first cfg.http_rpc_urls ≡ some url)
          × Wide net url s.contract s.admin_watch_target)

fetch_first-Wide :
    (net : Net) (cfg : Config) (s : Loop) (urls : List String)
    → fetch_first net cfg s urls ≡ none
    → (urls ≡ [])
      ⊎ ((url : String) × (first urls ≡ some url) × Wide net url s.contract s.admin_watch_target)
unfolding fetch_first
fetch_first-Wide net cfg s [] h = inl refl
fetch_first-Wide net cfg s (url ∷ urls) h =
    let r = fetch_public_drop net url s.contract s.admin_watch_target in
    let (e, (failed, panic)) = unless_panic-none r (recheck_price net cfg s.mint_value r) h in
    inr (url, refl, fetch_public_drop-Wide net url s.contract s.admin_watch_target e failed panic)

handle_prepare-none :
    (net : Net) (cfg : Config) (s : Loop)
    → handle_prepare net cfg s ≡ none
    → Unreadable net cfg s ⊎ EmptyRange cfg s.wallets
unfolding handle_prepare
handle_prepare-none net cfg s h = elim (Bool-cases (is_nil s.warmed_providers)) [
  | inl cold ↦ ground arith
  | inr warm ↦ elim (Option-cases (fresh_value net cfg s)) [
    | inl unread ↦ inl (
        unfold fresh_value in
        record {
          connected = warm;
          seadrop = ground (arith, unread);
          waits = ground (arith, unread);
          first_read = fetch_first-Wide net cfg s cfg.http_rpc_urls (ground (arith, unread));
        })
    | inr (fresh, read) ↦
        let (e, (failed, panic)) =
          unless_panic-none (signing net cfg s fresh.0) (sign_at net cfg s fresh)
            (ground (arith, warm, read, h)) in
        inr (
          prepare_fire-EmptyRange net cfg s.wallets
            (current_call (record s { mint_value = fresh.0 })) s.warmed_providers e failed panic)
  ]
]

-- The messages that sign.
abbrev pub signs : ControlMsg → Bool
signs prepare = true
signs fire_now = true
signs (fire_copymint contract calldata value) = true
signs _ = false

-- A message ends the task only in two ways: it is `Prepare`, to a loop with connections, in SeaDrop mode without the
-- timestamp trigger, and the configuration lists no HTTP RPC, or the first one listed answers the loop's drop with a word
-- beyond 64 bits; or it is a message that signs, there are wallets, and the gas jitter is over 2 ^ 63 per cent.
pub step-none :
    (net : Net) (cfg : Config) (s : Loop) (msg : ControlMsg)
    → step net cfg s msg ≡ none
    → ((msg ≡ prepare) × Unreadable net cfg s) ⊎ ((signs msg ≡ true) × EmptyRange cfg s.wallets)
unfolding step
step-none net cfg s arm h = ground arith
step-none net cfg s disarm h = ground arith
step-none net cfg s fire_now h =
    let (e, (failed, panic)) =
      unless_panic-none (fire_current net cfg s).result (handle_fire_now net cfg s) h in
    inr (refl, fire_current-EmptyRange net cfg s e failed panic)
step-none net cfg s prepare h = elim (handle_prepare-none net cfg s h) [
  | inl unread ↦ inl (refl, unread)
  | inr range ↦ inr (refl, range)
]
step-none net cfg s (fire_copymint contract calldata value) h =
    let call : MintCall = record { contract = contract; calldata = calldata; value = value } in
    let (e, (failed, panic)) =
      unless_panic-none (copymint_result net cfg s call) (handle_fire_copymint net cfg s call) h in
    inr (refl, copymint_result-EmptyRange net cfg s call e failed panic)
step-none net cfg s (set_target nft calldata value) h = ground arith
step-none net cfg s fire_delegated h = ground arith
