-- ===== src/Control/Nonces.antt =====
-- The nonces of the wallets: what a batch uses, what each message does to them, and what a fire sends.
use seasniper.Common.{
  ℕ, ◌+◌, wrap_u64, Bool, true, false, Option, none, some, List, [], ◌∷◌, ◌≡◌, refl, ◌⊎◌, inl, inr,
  arith, map, ==_refl, Pointwise, All, Bool-cases, Option-cases, is_nil, if◌then◌else◌,
}
use seasniper.Common.Results.{ok, err}
use seasniper.Config.{Config}
use seasniper.Wallet.{ManagedWallet}
use seasniper.Net.{Net}
use seasniper.Effect.{
  Effect, ControlMsg, arm, disarm, fire_now, prepare, fire_copymint, set_target, fire_delegated,
  emit_all,
}
use seasniper.Executor.Prepare.{PreparedWallet, PreparedFire, MintCall, prepare_fire}
use seasniper.Executor.Fire.{FireContext}
use seasniper.Executor.Prepare.Batch.{BatchFor}
use seasniper.Control.State.{Loop, current_call, end_session, advance, advance_nonces, is_prepared}
use seasniper.Control.Arm.{handle_arm, arm_session, armed_state_of}
use seasniper.Control.Ready.{
  handle_prepare, handle_disarm, sign_at, sign_all, store_prepared, fresh_value,
}
use seasniper.Control.Step.{step, handle_set_target, handle_fire_delegated}
use seasniper.Control.Fire.{
  Signed, fire_signed, copymint_signed, connections, commit, sign_and_fire, fire_current,
  fire_cached, fire_unprepared, prepared_context, handle_fire_now, copymint_fired,
  handle_fire_copymint,
}

-- A wallet after its transaction is sent.
abbrev pub bump : ManagedWallet → ManagedWallet
bump w = record w { next_nonce = wrap_u64 (w.next_nonce + 1) }

abbrev AllPrepared : List PreparedWallet → List ManagedWallet → Type 0
AllPrepared batch = All (λ w. is_prepared batch w ≡ true)

AllPrepared-cons :
    (pw : PreparedWallet) (batch : List PreparedWallet) (ws : List ManagedWallet)
    → AllPrepared batch ws
    → AllPrepared (pw ∷ batch) ws
AllPrepared-cons pw batch [] h = tt
AllPrepared-cons pw batch (w ∷ ws) h = (ground (arith, h.0), AllPrepared-cons pw batch ws h.1)

BatchFor-AllPrepared :
    (contract : ℕ) (calldata : List ℕ) (ws : List ManagedWallet) (batch : List PreparedWallet)
    → BatchFor contract calldata ws batch
    → AllPrepared batch ws
BatchFor-AllPrepared contract calldata [] batch b = tt
BatchFor-AllPrepared contract calldata (w ∷ ws) [] b = elim b [ ]
BatchFor-AllPrepared contract calldata (w ∷ ws) (pw ∷ batch) b = (
  ground (arith, ==_refl w.address, b.0.address_of),
  AllPrepared-cons pw batch ws (BatchFor-AllPrepared contract calldata ws batch b.1),
)

map-advance :
    (batch : List PreparedWallet) (ws : List ManagedWallet)
    → AllPrepared batch ws
    → map (advance batch) ws ≡ map bump ws
map-advance batch [] h = refl
map-advance batch (w ∷ ws) h = ground (arith, map-advance batch ws h.1, h.0)

-- A batch that was signed for the wallets moves each of them to its next nonce.
pub advance_nonces-BatchFor :
    (contract : ℕ) (calldata : List ℕ) (ws : List ManagedWallet) (batch : List PreparedWallet)
    → BatchFor contract calldata ws batch
    → advance_nonces ws batch ≡ map bump ws
unfolding advance_nonces
advance_nonces-BatchFor contract calldata ws batch b =
    map-advance batch ws (BatchFor-AllPrepared contract calldata ws batch b)

-- What a wallet may become: itself, or itself at the next nonce.
abbrev pub Moved : ManagedWallet → ManagedWallet → Type 0
Moved w w' = (w' ≡ w) ⊎ (w' ≡ bump w)

Moved-refl : (ws : List ManagedWallet) → Pointwise Moved ws ws
Moved-refl [] = tt
Moved-refl (w ∷ ws) = (inl refl, Moved-refl ws)

advance_nonces-Moved :
    (ws : List ManagedWallet) (batch : List PreparedWallet)
    → Pointwise Moved ws (advance_nonces ws batch)
unfolding advance_nonces
advance_nonces-Moved [] batch = tt
advance_nonces-Moved (w ∷ ws) batch =
    (step_case (is_prepared batch w), advance_nonces-Moved ws batch)
  where
    step_case : (b : Bool) → Moved w (if b then bump w else w)
    step_case true = inr refl
    step_case false = inl refl

-- What a fire leaves of the wallets: they are as they were, or a signed batch moved them.
commit-Moved :
    (net : Net) (ctx : FireContext) (ws : List ManagedWallet) (before : List Effect)
    (batch : List PreparedWallet)
    → Pointwise Moved ws (commit net ctx ws before batch).wallets
unfolding commit
commit-Moved net ctx ws before batch = advance_nonces-Moved ws batch

fire_signed-Moved :
    (net : Net) (ctx : FireContext) (ws : List ManagedWallet) (r : Signed)
    → Pointwise Moved ws (fire_signed net ctx ws r).wallets
unfolding fire_signed
fire_signed-Moved net ctx ws (events, ok batch) = commit-Moved net ctx ws (emit_all events) batch
fire_signed-Moved net ctx ws (events, err e) = Moved-refl ws

copymint_signed-Moved :
    (net : Net) (ctx : FireContext) (ws : List ManagedWallet) (r : Signed)
    → Pointwise Moved ws (copymint_signed net ctx ws r).wallets
unfolding copymint_signed
copymint_signed-Moved net ctx ws (events, ok batch) =
    commit-Moved net ctx ws (emit_all events) batch
copymint_signed-Moved net ctx ws (events, err e) = Moved-refl ws

fire_unprepared-Moved :
    (net : Net) (cfg : Config) (s : Loop)
    → Pointwise Moved s.wallets (fire_unprepared net cfg s).wallets
unfolding fire_unprepared sign_and_fire
fire_unprepared-Moved net cfg s =
    let ctx : FireContext = (connections net cfg s).1 in
    fire_signed-Moved net ctx s.wallets
      (prepare_fire net ctx.cfg s.wallets (current_call s) ctx.providers)

fire_cached-Moved :
    (net : Net) (cfg : Config) (s : Loop) (cached : Option PreparedFire)
    → Pointwise Moved s.wallets (fire_cached net cfg s cached).wallets
unfolding fire_cached
fire_cached-Moved net cfg s (some pf) =
    commit-Moved net (prepared_context cfg s pf) s.wallets [] pf.wallets
fire_cached-Moved net cfg s none = fire_unprepared-Moved net cfg s

fire_current-Moved :
    (net : Net) (cfg : Config) (s : Loop)
    → Pointwise Moved s.wallets (fire_current net cfg s).wallets
unfolding fire_current
fire_current-Moved net cfg s = fire_cached-Moved net cfg s s.prepared_fire

sign_at-wallets :
    (net : Net) (cfg : Config) (s : Loop) (fresh : ℕ × List Effect)
    → (sign_at net cfg s fresh).0.wallets ≡ s.wallets
unfolding sign_at sign_all store_prepared
sign_at-wallets net cfg s fresh = ground arith

handle_prepare-wallets :
    (net : Net) (cfg : Config) (s t : Loop) (effects : List Effect)
    → handle_prepare net cfg s ≡ some (t, effects)
    → t.wallets ≡ s.wallets
unfolding handle_prepare
handle_prepare-wallets net cfg s t effects e = elim (Bool-cases (is_nil s.warmed_providers)) [
  | inl empty ↦ ground arith
  | inr warmed ↦ elim (Option-cases (fresh_value net cfg s)) [
    | inl gone ↦ ground arith
    | inr (fresh, got) ↦ ground (arith, sign_at-wallets net cfg s fresh)
  ]
]

-- No message moves a wallet's nonce by more than one, past the largest `u64` to 0, and none changes anything else of a wallet.
pub step-Moved :
    (net : Net) (cfg : Config) (s t : Loop) (msg : ControlMsg) (effects : List Effect)
    → step net cfg s msg ≡ some (t, effects)
    → Pointwise Moved s.wallets t.wallets
unfolding step handle_set_target handle_fire_delegated end_session
step-Moved net cfg s t arm effects e =
    let h : t.wallets ≡ s.wallets = unfold handle_arm arm_session armed_state_of in ground arith in
    rw h (Moved-refl s.wallets)
step-Moved net cfg s t disarm effects e =
    let h : t.wallets ≡ s.wallets = unfold handle_disarm in ground arith in
    rw h (Moved-refl s.wallets)
step-Moved net cfg s t fire_now effects e =
    let h : t.wallets ≡ (fire_current net cfg s).wallets = unfold handle_fire_now in ground arith in
    rw h (fire_current-Moved net cfg s)
step-Moved net cfg s t prepare effects e =
    rw (handle_prepare-wallets net cfg s t effects e) (Moved-refl s.wallets)
step-Moved net cfg s t (fire_copymint c d x) effects e =
    let call : MintCall = record { contract = c; calldata = d; value = x } in
    let r : Signed = prepare_fire net cfg s.wallets call (connections net cfg s).1.providers in
    let h : t.wallets ≡ (copymint_signed net (connections net cfg s).1 s.wallets r).wallets =
      unfold handle_fire_copymint copymint_fired connections in ground arith in
    rw h (copymint_signed-Moved net (connections net cfg s).1 s.wallets r)
step-Moved net cfg s t (set_target n d x) effects e =
    let h : t.wallets ≡ s.wallets = ground arith in rw h (Moved-refl s.wallets)
step-Moved net cfg s t fire_delegated effects e =
    let h : t.wallets ≡ s.wallets = ground arith in rw h (Moved-refl s.wallets)
