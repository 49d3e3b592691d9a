-- ===== src/Control/Cache.antt =====
-- The cached batch (`prepared_fire` of `control_loop`, mint-sniper/src/main.rs): whether it is in step with
-- the wallets and the target.
use seasniper.Common.{
  ℕ, ◌+◌, wrap_u64, Bool, true, Option, none, some, List, [], ◌∷◌, ◌≡◌, refl, ◌⊎◌, inl, inr, arith,
  map, Pointwise, Bool-cases, Option-cases, is_nil,
}
use seasniper.Common.Results.{Result, is_ok, ok, err}
use seasniper.Failure.{Failure}
use seasniper.Config.{Config}
use seasniper.Wallet.{ManagedWallet}
use seasniper.Net.{Net}
use seasniper.Effect.{
  Effect, ControlMsg, arm, disarm, fire_now, prepare, fire_copymint, set_target, fire_delegated,
}
use seasniper.Executor.Prepare.{PreparedWallet, PreparedFire, MintCall, prepare_fire}
use seasniper.Executor.Fire.{FireContext}
use seasniper.Executor.Prepare.Batch.{BatchFor, prepare_fire-BatchFor}
use seasniper.Control.Nonces.{bump, advance_nonces-BatchFor}
use seasniper.Control.State.{Loop, current_call, end_session}
use seasniper.Control.Arm.{handle_arm, arm_session, armed_state_of}
use seasniper.Control.Ready.{
  handle_prepare, handle_disarm, sign_at, sign_all, store_prepared, fresh_value,
}
use seasniper.Control.Step.{step, handle_set_target, handle_fire_delegated}
use seasniper.Control.Fire.{
  Signed, connections, commit, handle_fire_now, copymint_signed, copymint_fired,
  handle_fire_copymint,
}

abbrev pub Current : ℕ → List ℕ → List ManagedWallet → Option PreparedFire → Type 0
Current contract calldata ws none = Unit
Current contract calldata ws (some pf) = BatchFor contract calldata ws pf.wallets

-- What is cached was signed for the wallets' next nonces and for the mint that the loop is set to.
abbrev pub FreshBatch : Loop → Type 0
FreshBatch s = Current s.contract s.mint_calldata s.wallets s.prepared_fire

-- Every message but a copymint fire keeps what is cached in step with the wallets and with the target.
unfoldable pub Keeps : ControlMsg → Type 0
Keeps (fire_copymint c d x) = ⊥
Keeps msg = Unit

store_prepared-FreshBatch :
    (net : Net) (s : Loop) (result : Result Failure (List PreparedWallet))
    → FreshBatch s
    → ((batch : List PreparedWallet)
        → result ≡ ok batch
        → BatchFor s.contract s.mint_calldata s.wallets batch)
    → FreshBatch (store_prepared net s result).0
unfolding store_prepared
store_prepared-FreshBatch net s (ok batch) f signed = signed batch refl
store_prepared-FreshBatch net s (err e) f signed = f

sign_at-FreshBatch :
    (net : Net) (cfg : Config) (s : Loop) (fresh : ℕ × List Effect)
    → FreshBatch s
    → FreshBatch (sign_at net cfg s fresh).0
unfolding sign_at sign_all
sign_at-FreshBatch net cfg s (value, effects) f =
    let t : Loop = record s { mint_value = value } in
    store_prepared-FreshBatch net t
      (prepare_fire net cfg s.wallets (current_call t) s.warmed_providers).1 f
      (λ batch signed.
        (prepare_fire-BatchFor net cfg (current_call t) s.wallets s.warmed_providers batch
          signed).0)

handle_prepare-FreshBatch :
    (net : Net) (cfg : Config) (s t : Loop) (effects : List Effect)
    → FreshBatch s
    → handle_prepare net cfg s ≡ some (t, effects)
    → FreshBatch t
unfolding handle_prepare
handle_prepare-FreshBatch net cfg s t effects f e = elim (Bool-cases (is_nil s.warmed_providers)) [
  | inl empty ↦ let h : t ≡ s = ground arith in rw h f
  | inr warmed ↦ elim (Option-cases (fresh_value net cfg s)) [
    | inl gone ↦ ground arith
    | inr (fresh, got) ↦
        let h : t ≡ (sign_at net cfg s fresh).0 = ground arith in
        rw h (sign_at-FreshBatch net cfg s fresh f)
  ]
]

handle_arm-cases :
    (net : Net) (cfg : Config) (s : Loop)
    → ((handle_arm net cfg s).0 ≡ s) ⊎ ((handle_arm net cfg s).0 ≡ armed_state_of net cfg s)
unfolding handle_arm arm_session
handle_arm-cases net cfg s = ground arith

handle_arm-FreshBatch :
    (net : Net) (cfg : Config) (s : Loop) → FreshBatch s → FreshBatch (handle_arm net cfg s).0
handle_arm-FreshBatch net cfg s f = elim (handle_arm-cases net cfg s) [
  | inl same ↦ rw same f
  | inr now ↦ rw now (unfold armed_state_of in tt)
]

-- Every message but a copymint fire keeps the cached batch, if there is one, signed for the next nonces
-- of the wallets and for the contract and calldata that the loop is set to.
pub step-FreshBatch :
    (net : Net) (cfg : Config) (s t : Loop) (msg : ControlMsg) (effects : List Effect)
    → Keeps msg
    → FreshBatch s
    → step net cfg s msg ≡ some (t, effects)
    → FreshBatch t
unfolding step Keeps
step-FreshBatch net cfg s t arm effects k f e =
    let h : t ≡ (handle_arm net cfg s).0 = ground arith in rw h (handle_arm-FreshBatch net cfg s f)
step-FreshBatch net cfg s t disarm effects k f e =
    let h : t.prepared_fire ≡ none = unfold handle_disarm end_session in ground arith in rw h tt
step-FreshBatch net cfg s t fire_now effects k f e =
    let h : t.prepared_fire ≡ none = unfold handle_fire_now end_session in ground arith in rw h tt
step-FreshBatch net cfg s t prepare effects k f e =
    handle_prepare-FreshBatch net cfg s t effects f e
step-FreshBatch net cfg s t (fire_copymint c d x) effects k f e = elim k [ ]
step-FreshBatch net cfg s t (set_target n d x) effects k f e =
    let h : t.prepared_fire ≡ none = unfold handle_set_target end_session in ground arith in rw h tt
step-FreshBatch net cfg s t fire_delegated effects k f e =
    let h : t ≡ s = unfold handle_fire_delegated in ground arith in rw h f

-- A signed transaction whose nonce its wallet has used.
abbrev pub Behind : ManagedWallet → PreparedWallet → Type 0
Behind w pw = wrap_u64 (pw.raw_tx.request.nonce + 1) ≡ w.next_nonce

BatchFor-Behind :
    (contract : ℕ) (calldata : List ℕ) (ws : List ManagedWallet) (batch : List PreparedWallet)
    → BatchFor contract calldata ws batch
    → Pointwise Behind (map bump ws) batch
BatchFor-Behind contract calldata [] [] b = tt
BatchFor-Behind contract calldata [] (pw ∷ batch) b = elim b [ ]
BatchFor-Behind contract calldata (w ∷ ws) [] b = elim b [ ]
BatchFor-Behind contract calldata (w ∷ ws) (pw ∷ batch) b =
    (ground (arith, b.0.nonce_of), BatchFor-Behind contract calldata ws batch b.1)

copymint_signed-bump :
    (net : Net) (ctx : FireContext) (call : MintCall) (ws : List ManagedWallet) (r : Signed)
    → is_ok r.1 ≡ true
    → ((batch : List PreparedWallet)
        → r.1 ≡ ok batch
        → BatchFor call.contract call.calldata ws batch)
    → (copymint_signed net ctx ws r).wallets ≡ map bump ws
unfolding copymint_signed commit
copymint_signed-bump net ctx call ws (events, ok batch) signs signed =
    advance_nonces-BatchFor call.contract call.calldata ws batch (signed batch refl)
copymint_signed-bump net ctx call ws (events, err e) signs signed = ground arith

abbrev pub copymint_signs : Net → Config → Loop → MintCall → Bool
copymint_signs net cfg s call =
    let ctx : FireContext = (connections net cfg s).1 in
    is_ok (prepare_fire net ctx.cfg s.wallets call ctx.providers).1

-- When a copymint fire signs while a fresh batch is cached, the same batch stays cached, and every one
-- of its transactions is one nonce behind its wallet, which goes on from the largest `u64` to 0.
pub handle_fire_copymint-Behind :
    (net : Net) (cfg : Config) (s : Loop) (call : MintCall) (pf : PreparedFire)
    → s.prepared_fire ≡ some pf
    → BatchFor s.contract s.mint_calldata s.wallets pf.wallets
    → copymint_signs net cfg s call ≡ true
    → ((handle_fire_copymint net cfg s call).0.prepared_fire ≡ some pf)
      × Pointwise Behind (handle_fire_copymint net cfg s call).0.wallets pf.wallets
unfolding handle_fire_copymint copymint_fired
handle_fire_copymint-Behind net cfg s call pf cached b signs =
    let ctx : FireContext = (connections net cfg s).1 in
    let bumped : (copymint_signed net ctx s.wallets
          (prepare_fire net ctx.cfg s.wallets call ctx.providers)).wallets
        ≡ map bump s.wallets =
      copymint_signed-bump net ctx call s.wallets
        (prepare_fire net ctx.cfg s.wallets call ctx.providers) signs
        (λ batch signed.
          (prepare_fire-BatchFor net ctx.cfg call s.wallets ctx.providers batch signed).0) in
    (cached, rw bumped (BatchFor-Behind s.contract s.mint_calldata s.wallets pf.wallets b))
