-- ===== src/Executor/Report/Coverage.antt =====
-- What `fire_prepared` hands to the nodes (mint-sniper/src/executor.rs).
use seasniper.Common.{
  ℕ, ◌+◌, enumerate_from, sym, if◌then◌else◌, String, Bool, Bool-cases, inl, inr, true, Option,
  none, some, List, [], ◌∷◌, ◌++◌, ◌≡◌, refl, arith, map, filter_map, flat_map, is_nil, not,
}
use mathlib.Core.List.{append-nil}
use seasniper.Bus.{ServerEvent, mint_result}
use seasniper.Wallet.{Envelope}
use seasniper.Net.{Net}
use seasniper.Effect.{Effect, emit, broadcast, send, spawn, abort, emit_all}
use seasniper.Executor.Prepare.{PreparedWallet}
use seasniper.Executor.Fire.{FireContext, handed_to, backup_send, backup_sends, sequencer_send}
use seasniper.Executor.Report.{
  fire_prepared, fire_wallet, wallet_task, wallet_effects, wallet_result, jitter_panics,
  option_list,
}

-- The transactions that were handed to a node, with the node.
abbrev pub as_sent : Effect → Option (String × Envelope)
as_sent (emit e) = none
as_sent (send m) = none
as_sent (spawn t) = none
as_sent (abort t) = none
as_sent (broadcast url tx) = some (url, tx)

abbrev pub sent : List Effect → List (String × Envelope)
sent = filter_map as_sent

filter_map-append {ℓ κ} :
    {A : Type ℓ} {B : Type κ} (f : A → Option B) (xs ys : List A)
    → filter_map f (xs ++ ys) ≡ filter_map f xs ++ filter_map f ys
filter_map-append f [] ys = refl
filter_map-append f (x ∷ xs) ys = ground (arith, filter_map-append f xs ys)

pub sent-append : (xs ys : List Effect) → sent (xs ++ ys) ≡ sent xs ++ sent ys
sent-append = filter_map-append as_sent

pub sent-emit_all : (events : List ServerEvent) → sent (emit_all events) ≡ []
sent-emit_all [] = refl
sent-emit_all (e ∷ events) = sent-emit_all events

-- Every target of a fire, and one transaction to each of them.
abbrev pub targets : FireContext → List String
targets ctx = option_list ctx.sequencer ++ ctx.providers

abbrev pub to_each : List String → PreparedWallet → List (String × Envelope)
to_each urls pw = map (λ url. (url, pw.raw_tx)) urls

sent-backups :
    (net : Net) (ctx : FireContext) (pw : PreparedWallet) (i : ℕ) (urls : List String)
    → sent (flat_map (handed_to net ctx pw) (enumerate_from i urls)) ≡ to_each urls pw
unfolding backup_send
sent-backups net ctx pw i [] = refl
sent-backups net ctx pw i (url ∷ urls) = ground (
  arith,
  sent-append (handed_to net ctx pw (i, url))
      (flat_map (handed_to net ctx pw) (enumerate_from (i + 1) urls)),
  sent-backups net ctx pw (i + 1) urls,
)

sent-sequencer :
    (net : Net) (ctx : FireContext) (pw : PreparedWallet)
    → sent (sequencer_send net ctx pw.raw_tx).0 ≡ to_each (option_list ctx.sequencer) pw
unfolding sequencer_send
sent-sequencer net ctx pw = ground arith

to_each-append :
    (xs ys : List String) (pw : PreparedWallet)
    → to_each (xs ++ ys) pw ≡ to_each xs pw ++ to_each ys pw
to_each-append [] ys pw = refl
to_each-append (x ∷ xs) ys pw = ground (arith, to_each-append xs ys pw)

-- The targets that a fire comes to: none where the range of its jitter is empty, on which every task panics.
abbrev pub reached : FireContext → List String
reached ctx = if jitter_panics ctx.cfg then [] else targets ctx

sent-wallet_task :
    (net : Net) (ctx : FireContext) (pw : PreparedWallet)
    → sent (wallet_task net ctx pw).0 ≡ to_each (reached ctx) pw
unfolding wallet_task fire_wallet backup_sends
sent-wallet_task net ctx pw = elim (Bool-cases (jitter_panics ctx.cfg)) [
  | inl panic ↦ rw panic refl
  | inr runs ↦
      let to_backups = flat_map (handed_to net ctx pw) (enumerate_from 0 ctx.providers) in
      rw
        (
          runs,
          sent-append (sequencer_send net ctx pw.raw_tx).0 to_backups,
          sent-sequencer net ctx pw,
          sent-backups net ctx pw 0 ctx.providers,
        )
        (sym (to_each-append (option_list ctx.sequencer) ctx.providers pw))
]

sent-wallet_effects :
    (net : Net) (ctx : FireContext) (pw : PreparedWallet)
    → sent (wallet_effects net ctx pw) ≡ to_each (reached ctx) pw
unfolding wallet_effects
sent-wallet_effects net ctx pw = ground (
  arith,
  sent-append (wallet_task net ctx pw).0 (emit (mint_result (wallet_result net ctx pw)) ∷ []),
  sent-wallet_task net ctx pw,
  append-nil (to_each (reached ctx) pw),
)

sent-flat_map :
    (net : Net) (ctx : FireContext) (batch : List PreparedWallet)
    → sent (flat_map (wallet_effects net ctx) batch) ≡ flat_map (to_each (reached ctx)) batch
sent-flat_map net ctx [] = refl
sent-flat_map net ctx (pw ∷ batch) = ground (
  arith,
  sent-append (wallet_effects net ctx pw) (flat_map (wallet_effects net ctx) batch),
  sent-wallet_effects net ctx pw,
  sent-flat_map net ctx batch,
)

-- Whether a fire has a node to send to.
abbrev pub has_target : FireContext → Bool
has_target ctx = not (is_nil (targets ctx))

to_none :
    (urls : List String) (batch : List PreparedWallet)
    → is_nil urls ≡ true
    → flat_map (to_each urls) batch ≡ []
to_none urls [] h = refl
to_none urls (pw ∷ batch) h = ground (arith, to_none urls batch h)

-- What a fire hands to the nodes: every signed transaction of its batch to the sequencer, where there is one, and to
-- every provider, once each, and nothing else; but nothing at all where the range of the jitter is empty.
pub fire_prepared-sent :
    (net : Net) (ctx : FireContext) (batch : List PreparedWallet)
    → sent (fire_prepared net ctx batch).0 ≡ flat_map (to_each (reached ctx)) batch
unfolding fire_prepared
fire_prepared-sent net ctx batch = elim (Bool-cases (has_target ctx)) [
  | inl some_target ↦ ground (arith, sent-flat_map net ctx batch)
  | inr no_target ↦ elim (Bool-cases (jitter_panics ctx.cfg)) [
    | inl panic ↦ rw panic (ground (arith, to_none [] batch refl))
    | inr runs ↦ rw runs (ground (arith, to_none (targets ctx) batch))
  ]
]
